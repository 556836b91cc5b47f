-- ===== src/RateLimit/Tokens.antt =====
-- The token bucket of `_check_ip_limit` over the requests of one address.
use native.Mathlib.Nat.{add-mul}
use looprail_backend.Prelude.{
  ℕ, suc, ◌+◌, ◌-◌, ◌*◌, ◌/◌, ◌≤◌, ◌<◌, ◌≡◌, ◌∙◌, sym, ap, true, false, none, some, String, List,
  [], ◌∷◌, ltb, arith, if◌then◌else◌, Bool-cases, inl, inr,
}
use looprail_backend.RateLimit.Server.{
  second, token, alive, IpConfig, SubjectConfig, config_of, LimitKey, by_ip, Bucket, LimitServer,
}
use looprail_backend.RateLimit.Check.{verdict, is_allowed, refilled, take_token, check_ip_limit}

-- the latest moment, where `start` is before the others
abbrev pub latest_since : ℕ → List ℕ → ℕ
latest_since start [] = start
latest_since start (now ∷ earlier) = now

-- no moment is earlier than the ones behind it
abbrev pub Since : ℕ → List ℕ → Type 0
Since start [] = Unit {0}
Since start (now ∷ earlier) = (latest_since start earlier ≤ now) × Since start earlier

capacity_positive :
    (subject : String) (config : SubjectConfig)
    → config_of subject ≡ some config
    → 0 < config.ip.capacity
unfolding config_of
capacity_positive subject config h = ground arith

-- the refill over two times that follow each other
refill-split :
    (start last now rate : ℕ)
    → start ≤ last
    → last ≤ now
    → (last - start) * rate + (now - last) * rate ≡ (now - start) * rate
refill-split start last now rate h k =
    let total : (last - start) + (now - last) ≡ now - start = omega arith in
    sym (add-mul (last - start) (now - last) rate) ∙ ap (λ n. n * rate) total

module _ (r : LimitServer) (subject ip : String) where
  -- a request at `start`, and then those of the list, the latest first: how many were allowed, and the store
  unfoldable pub serve_all : ℕ → List ℕ → r.Store → ℕ × r.Store
  serve_all start [] s =
      let (v, s') = check_ip_limit r subject ip start s in (if is_allowed v then 1 else 0, s')
  serve_all start (now ∷ earlier) s =
      let (n, s1) = serve_all start earlier s in
      let (v, s2) = check_ip_limit r subject ip now s1 in (if is_allowed v then suc n else n, s2)

  -- the requests allowed and the tokens left came from the capacity and the refill
  abbrev pub Covered : SubjectConfig → ℕ → ℕ → ℕ → Bucket → Type 0
  Covered config start now n b =
      (start ≤ b.last_update)
      × (b.last_update ≤ now)
      × (n * token + b.tokens
          ≤ config.ip.capacity * token + (b.last_update - start) * config.ip.refill_rate_per_hour)

  -- the end of the bucket that a request at `start` makes
  abbrev pub deadline_of : SubjectConfig → ℕ → ℕ
  deadline_of config start = start + config.ip.redis_expiry_seconds * second

  abbrev pub Bucketed : SubjectConfig → ℕ → ℕ → ℕ → r.Store → Type 0
  Bucketed config start now n s =
      (b : Bucket) × ((r.bucket (by_ip subject ip) s ≡ some (b, some (deadline_of config start)))
        × Covered config start now n b)

  first-run :
      (config : SubjectConfig) (now : ℕ) (s : r.Store)
      → config_of subject ≡ some config
      → ((t : r.Store) → r.down t ≡ false)
      → r.bucket (by_ip subject ip) s ≡ none
      → let key = by_ip subject ip in
        check_ip_limit r subject ip now s ≡ (
          verdict true none,
          r.expire_bucket key (deadline_of config now) (
              r.set_bucket key
                (record { tokens = (config.ip.capacity - 1) * token; last_update = now })
                now
                s),
        )
  unfolding check_ip_limit
  first-run config now s known up empty =
      let key = by_ip subject ip in
      let full : Bucket = record { tokens = (config.ip.capacity - 1) * token; last_update = now } in
      ground (arith, up s, up (r.set_bucket key full now s))

  next-run :
      (config : SubjectConfig) (now : ℕ) (b : Bucket) (s : r.Store)
      → config_of subject ≡ some config
      → ((t : r.Store) → r.down t ≡ false)
      → alive now (r.bucket (by_ip subject ip) s) ≡ some b
      → check_ip_limit r subject ip now s ≡ take_token r config.ip (by_ip subject ip) b now s
  unfolding check_ip_limit
  next-run config now b s known up there = ground (arith, up s)

  taken-run :
      (config : IpConfig) (key : LimitKey) (b : Bucket) (now : ℕ) (s : r.Store)
      → r.down s ≡ false
      → ltb (refilled r config b now) token ≡ false
      → take_token r config key b now s ≡ (
        verdict true none,
        r.set_bucket key
            (record { tokens = refilled r config b now - token; last_update = now })
            now
            s,
      )
  unfolding take_token
  taken-run config key b now s up enough = ground arith

  refused-run :
      (config : IpConfig) (key : LimitKey) (b : Bucket) (now : ℕ) (s : r.Store)
      → ltb (refilled r config b now) token ≡ true
      → take_token r config key b now s ≡ (
        verdict false
            (some ((token - refilled r config b now) / (config.refill_rate_per_hour * second))),
        s,
      )
  unfolding take_token
  refused-run config key b now s few = ground arith

  -- a token is taken from what the bucket has at `now`
  taken-Covered :
      (config : SubjectConfig) (start now n : ℕ) (b : Bucket)
      → Covered config start now n b
      → ltb (refilled r config.ip b now) token ≡ false
      → suc n * token + (refilled r config.ip b now - token)
        ≤ config.ip.capacity * token + (now - start) * config.ip.refill_rate_per_hour
  taken-Covered config start now n b c enough =
      ground (arith, refill-split start b.last_update now config.ip.refill_rate_per_hour c.0 c.1)

  step-Bucketed :
      (config : SubjectConfig) (start old now n : ℕ) (s : r.Store)
      → config_of subject ≡ some config
      → ((t : r.Store) → r.down t ≡ false)
      → old ≤ now
      → now < deadline_of config start
      → Bucketed config start old n s
      → let (v, s') = check_ip_limit r subject ip now s in
        Bucketed config start now (if is_allowed v then suc n else n) s'
  step-Bucketed config start old now n s known up later in_time (b, (there, covered)) =
      let key = by_ip subject ip in
      let seen : alive now (r.bucket key s) ≡ some b = ground arith in
      rw (next-run config now b s known up seen)
        (elim (Bool-cases (ltb (refilled r config.ip b now) token)) [
          | inl few ↦
              rw (refused-run config.ip key b now s few)
                (b, (there, (covered.0, omega (arith, covered.1, later), covered.2)))
          | inr enough ↦
              let left : Bucket = record {
                tokens = refilled r config.ip b now - token;
                last_update = now;
              } in
              let since : Covered config start now n b =
                (covered.0, omega (arith, covered.1, later), covered.2) in
              let counted = taken-Covered config start now n b since enough in
              rw (taken-run config.ip key b now s (up s) enough) (
                left,
                (
                  r.bucket_kept key b left (deadline_of config start) now s there in_time,
                  (omega (arith, covered.0, covered.1, later), omega arith, counted),
                ),
              )
        ])

  serve_all-Bucketed :
      (config : SubjectConfig) (start : ℕ) (moments : List ℕ) (s : r.Store)
      → config_of subject ≡ some config
      → ((t : r.Store) → r.down t ≡ false)
      → r.bucket (by_ip subject ip) s ≡ none
      → Since start moments
      → latest_since start moments < deadline_of config start
      → let (n, s') = serve_all start moments s in
        Bucketed config start (latest_since start moments) n s'
  unfolding serve_all
  serve_all-Bucketed config start [] s known up empty order in_time =
      let key = by_ip subject ip in
      let full : Bucket = record {
        tokens = (config.ip.capacity - 1) * token;
        last_update = start;
      } in
      let stored =
        r.bucket_expire key full none (deadline_of config start) (r.set_bucket key full start s)
          (r.bucket_new key full start s empty) in
      rw (first-run config start s known up empty) (
        full,
        (stored, (omega arith, omega arith, omega (arith, capacity_positive subject config known))),
      )
  serve_all-Bucketed config start (now ∷ earlier) s known up empty order in_time =
      step-Bucketed config start (latest_since start earlier) now (serve_all start earlier s).0
        (serve_all start earlier s).1 known up order.0 in_time
        (serve_all-Bucketed config start earlier s known up empty order.1
          (omega (arith, order.0, in_time)))

  -- Requests from one address come one after another, to a bucket that is not there yet and a server that raises no
  -- error, the latest before the bucket that the first one makes expires. Then the requests that were allowed are at
  -- most the capacity and what was refilled since the first one. (After the bucket's end, a new one starts full.)
  pub allowed-covered :
      (config : SubjectConfig) (start : ℕ) (moments : List ℕ) (s : r.Store)
      → config_of subject ≡ some config
      → ((t : r.Store) → r.down t ≡ false)
      → r.bucket (by_ip subject ip) s ≡ none
      → Since start moments
      → latest_since start moments < deadline_of config start
      → (serve_all start moments s).0 * token
        ≤ config.ip.capacity * token
          + (latest_since start moments - start) * config.ip.refill_rate_per_hour
  allowed-covered config start moments s known up empty order in_time =
      let (b, (there, c)) =
        serve_all-Bucketed config start moments s known up empty order in_time in
      omega (
        arith,
        c.2,
        refill-split start b.last_update (latest_since start moments) config.ip.refill_rate_per_hour
            c.0 c.1,
      )
