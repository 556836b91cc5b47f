-- ===== src/RateLimit/Server.antt =====
-- The configuration of api/rate_limiters/limiters.py, and the commands of Redis that the limits use.
use looprail_backend.Prelude.{
  ℕ, ◌+◌, ◌*◌, ◌<◌, ◌≡◌, Bool, Option, none, some, String, List, [], ◌∷◌, ◌++◌, ltb, str_eq,
  if◌then◌else◌,
}

-- a second in microseconds, the unit of the moments
abbrev pub second : ℕ
second = 1000000

pub record EmailConfig : Type 0 where
  pub count : ℕ
  pub window_seconds : ℕ

-- `refill_rate_per_second` is a 3600th of `refill_rate_per_hour`
pub record IpConfig : Type 0 where
  pub capacity : ℕ
  pub refill_rate_per_hour : ℕ
  pub redis_expiry_seconds : ℕ

pub record SubjectConfig : Type 0 where
  pub email : EmailConfig
  pub ip : IpConfig
  -- `progressive_delay.delays`
  pub delays : List (ℕ × ℕ)
  -- `global_limit.count`
  pub global_count : ℕ

abbrev pub otp_config : SubjectConfig
otp_config = record {
  email = record { count = 5; window_seconds = 3600 };
  ip = record { capacity = 20; refill_rate_per_hour = 10; redis_expiry_seconds = 7200 };
  delays = (1, 0) ∷ (2, 0) ∷ (3, 30) ∷ (4, 120) ∷ (5, 900) ∷ (6, 1800) ∷ (7, 3600) ∷ [];
  global_count = 1000;
}

abbrev pub withdrawal_config : SubjectConfig
withdrawal_config = record {
  email = record { count = 40; window_seconds = 3600 };
  ip = record { capacity = 200; refill_rate_per_hour = 100; redis_expiry_seconds = 7200 };
  delays =
      (1, 0)
      ∷ (2, 0)
      ∷ (3, 0)
      ∷ (4, 0)
      ∷ (5, 0)
      ∷ (6, 30)
      ∷ (7, 120)
      ∷ (8, 900)
      ∷ (9, 1800)
      ∷ (10, 3600)
      ∷ [];
  global_count = 2000;
}

abbrev pub availability_config : SubjectConfig
availability_config = record {
  email = record { count = 10; window_seconds = 600 };
  ip = record { capacity = 30; refill_rate_per_hour = 60; redis_expiry_seconds = 7200 };
  delays =
      (1, 0) ∷ (2, 0) ∷ (3, 5) ∷ (4, 15) ∷ (5, 60) ∷ (6, 120) ∷ (7, 300) ∷ (8, 600) ∷ (9, 900) ∷ [];
  global_count = 5000;
}

-- `RATE_LIMIT_CONFIG`
abbrev pub rate_limit_config : List (String × SubjectConfig)
rate_limit_config =
    ("otp", otp_config)
    ∷ ("withdrawal", withdrawal_config)
    ∷ ("availability", availability_config)
    ∷ []

abbrev pub lookup_subject : String → List (String × SubjectConfig) → Option SubjectConfig
lookup_subject subject [] = none
lookup_subject subject ((key, config) ∷ rest) =
    if str_eq key subject then some config else lookup_subject subject rest

-- `RATE_LIMIT_CONFIG.get(subject)`
unfoldable pub config_of : String → Option SubjectConfig
config_of subject = lookup_subject subject rate_limit_config

-- the prefixes of the keys, each with the subject and, but for the last, the address
pub data LimitKey : Type 0 where
  by_email by_ip attempts last_time : String → String → LimitKey
  all_requests : String → LimitKey

-- a token in the unit of the tokens: the rate per hour is what is refilled in a microsecond
abbrev pub token : ℕ
token = 3600 * second

-- `float` fields of a bucket: the tokens, and the moment of the last update
pub record Bucket : Type 0 where
  pub tokens : ℕ
  pub last_update : ℕ

-- the window by address of mail, in microseconds
abbrev pub window_ticks : SubjectConfig → ℕ
window_ticks config = config.email.window_seconds * second

-- a moment of the last `window` microseconds before `now`
abbrev pub is_recent : ℕ → ℕ → ℕ → Bool
is_recent now window score = ltb now (score + window)

abbrev pub recent : ℕ → ℕ → List ℕ → List ℕ
recent now window [] = []
recent now window (x ∷ xs) =
    let rest = recent now window xs in if is_recent now window x then x ∷ rest else rest

abbrev pub Above : ℕ → List ℕ → Type 0
Above now [] = Unit {0}
Above now (x ∷ xs) = (x < now) × Above now xs

-- the hash at a key, until it expires
abbrev pub alive : ℕ → Option (Bucket × Option ℕ) → Option Bucket
alive now none = none
alive now (some (b, none)) = some b
alive now (some (b, some deadline)) = if ltb now deadline then some b else none

-- What the limits rely on of the server. A bucket expires at its deadline. The window of an address does not, between
-- the calls that a theorem is about: its key is kept for longer than its scores count.
pub record LimitServer : Type 1 where
  pub Store : Type 0
  -- the next command raises a RedisError
  pub down : Store → Bool
  -- ZRANGE key 0 -1, the scores from the lowest
  pub scores : LimitKey → Store → List ℕ
  -- ZREMRANGEBYSCORE key 0 (now - window)
  pub remove_old : LimitKey → ℕ → ℕ → Store → Store
  -- ZADD key score str(score)
  pub add_score : LimitKey → ℕ → Store → Store
  -- the hash at a key, with its deadline; HGETALL sees what is alive of it
  pub bucket : LimitKey → Store → Option (Bucket × Option ℕ)
  -- HSET at a moment, which keeps the deadline of a hash that is alive
  pub set_bucket : LimitKey → Bucket → ℕ → Store → Store
  -- EXPIRE of a hash, with the deadline
  pub expire_bucket : LimitKey → ℕ → Store → Store
  -- GET, INCR and SET of a number
  pub get_number : LimitKey → Store → Option ℕ
  pub increment : LimitKey → Store → ℕ × Store
  pub set_number : LimitKey → ℕ → Store → Store
  -- EXPIRE
  pub expire : LimitKey → Store → Store
  pub scores_removed :
      (k : LimitKey) (now window : ℕ) (s : Store)
      → scores k (remove_old k now window s) ≡ recent now window (scores k s)
  pub scores_added :
      (k : LimitKey) (now : ℕ) (s : Store)
      → Above now (scores k s)
      → scores k (add_score k now s) ≡ scores k s ++ (now ∷ [])
  pub scores_expire : (j k : LimitKey) (s : Store) → scores j (expire k s) ≡ scores j s
  pub bucket_new :
      (k : LimitKey) (b : Bucket) (now : ℕ) (s : Store)
      → bucket k s ≡ none
      → bucket k (set_bucket k b now s) ≡ some (b, none)
  pub bucket_kept :
      (k : LimitKey) (old b : Bucket) (deadline now : ℕ) (s : Store)
      → bucket k s ≡ some (old, some deadline)
      → now < deadline
      → bucket k (set_bucket k b now s) ≡ some (b, some deadline)
  pub bucket_expire :
      (k : LimitKey) (b : Bucket) (old : Option ℕ) (deadline : ℕ) (s : Store)
      → bucket k s ≡ some (b, old)
      → bucket k (expire_bucket k deadline s) ≡ some (b, some deadline)
