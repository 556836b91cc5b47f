-- ===== src/AuthLock.antt =====
-- infrastructure/services/auth_lock_service.py: failed attempts to authenticate, counted per e-mail address, and
-- the lock of an account. Redis is the interface of `Redis`, with the two commands on counters besides.
pub mod Laws
mod Tests
use looprail_backend.Prelude.{
  ℕ, suc, ◌*◌, ◌≡◌, ◌≢◌, Bool, true, false, Option, none, some, String, leb, ◌==◌, if◌then◌else◌,
}
use looprail_backend.Redis
use looprail_backend.Redis.{RedisServer}

-- `_get_key`, with the subject, if one is set
pub data AuthKey : Type 0 where
  failed_attempts account_lock : Option String → String → AuthKey

-- a counter, or the moment of the lock
pub data AuthValue : Type 0 where
  count locked_at : ℕ → AuthValue

-- INCR and EXPIRE: a missing counter counts from zero, an expiry changes no value, and neither touches
-- another key.
pub record Counters (r : RedisServer AuthKey AuthValue) : Type 0 where
  pub incr : AuthKey → r.Store → ℕ × r.Store
  pub expire : AuthKey → ℕ → r.Store → r.Store
  pub incr_first : (k : AuthKey) (s : r.Store) → r.get k s ≡ none → (incr k s).0 ≡ 1
  pub incr_next :
      (k : AuthKey) (n : ℕ) (s : r.Store) → r.get k s ≡ some (count n) → (incr k s).0 ≡ suc n
  pub get-incr_self : (k : AuthKey) (s : r.Store) → r.get k (incr k s).1 ≡ some (count (incr k s).0)
  pub get-incr_ne : (j k : AuthKey) (s : r.Store) → j ≢ k → r.get j (incr k s).1 ≡ r.get j s
  pub get-expire : (j k : AuthKey) (ttl : ℕ) (s : r.Store) → r.get j (expire k ttl s) ≡ r.get j s

-- constants.py, the duration in seconds
abbrev pub max_failed_otp_attempts : ℕ
max_failed_otp_attempts = 3

abbrev pub account_lockout_duration : ℕ
account_lockout_duration = 15 * 60

-- `FailedAttemptError`
pub data AuthLockError : Type 0 where
  failed_attempt_error : AuthLockError

module _ (r : RedisServer AuthKey AuthValue) (c : Counters r) (subject : Option String) where
  -- `_lock_account`, whose write is not looked at
  unfoldable pub lock_account : String → ℕ → r.Store → r.Store
  lock_account email now s =
      (Redis.create r (account_lock subject email) (locked_at now) account_lockout_duration s).1

  -- the counter, with its expiry from the first attempt on
  unfoldable pub count_failure : String → r.Store → ℕ × r.Store
  count_failure email s =
      let key = failed_attempts subject email in
      let (attempts, s') = c.incr key s in
      (attempts, if attempts == 1 then c.expire key account_lockout_duration s' else s')

  -- `increment_failed_attempts`
  unfoldable pub increment_failed_attempts :
      String → ℕ → r.Store → (ℕ × Option AuthLockError) × r.Store
  increment_failed_attempts email now s =
      let (attempts, s') = count_failure email s in
      if leb max_failed_otp_attempts attempts
      then ((attempts, some failed_attempt_error), lock_account email now s')
      else ((attempts, none), s')

  -- `reset_failed_attempts`
  unfoldable pub reset_failed_attempts : String → r.Store → r.Store
  reset_failed_attempts email s = (Redis.remove r (failed_attempts subject email) s).1

  -- `is_account_locked`. A missing key is no error here.
  unfoldable pub is_account_locked : String → r.Store → Bool × Option AuthLockError
  is_account_locked email s = elim (Redis.fetch r (account_lock subject email) s).0 [
    | none ↦ (false, none)
    | some v ↦ (true, some failed_attempt_error)
  ]
