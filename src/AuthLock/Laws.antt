-- ===== src/AuthLock/Laws.antt =====
-- When an account is locked, and what leaves a lock as it is.
use looprail_backend.Prelude.{
  ℕ, suc, ◌≡◌, ◌≢◌, Bool, true, false, Option, none, some, String, leb, ltb, arith, ◌∙◌, ap, sym,
  refl,
}
use looprail_backend.Redis
use looprail_backend.Redis.{RedisServer}
use looprail_backend.AuthLock.{
  AuthKey, failed_attempts, account_lock, AuthValue, count, locked_at, Counters,
  failed_attempt_error, account_lockout_duration, lock_account, count_failure,
  increment_failed_attempts, reset_failed_attempts, is_account_locked,
}

abbrev is_counter : AuthKey → Bool
is_counter (failed_attempts s e) = true
is_counter (account_lock s e) = false

counter_not_lock : (a b : Option String) (e f : String) → account_lock a e ≢ failed_attempts b f
counter_not_lock a b e f h = ground arith

module _ (r : RedisServer AuthKey AuthValue) (c : Counters r) (subject : Option String) where
  -- the count of a key that is missing or holds a counter
  abbrev pub Counted : Option AuthValue → ℕ → Type 0
  Counted none n = n ≡ 0
  Counted (some v) n = v ≡ count n

  incr-Counted :
      (k : AuthKey) (o : Option AuthValue) (n : ℕ) (s : r.Store)
      → r.get k s ≡ o
      → Counted o n
      → (c.incr k s).0 ≡ suc n
  incr-Counted k none n s e h = c.incr_first k s e ∙ ap suc (sym h)
  incr-Counted k (some v) n s e h = c.incr_next k n s (e ∙ ap some h)

  count_failure_lem :
      (email other : String) (n : ℕ) (s : r.Store)
      → Counted (r.get (failed_attempts subject email) s) n
      → let (attempts, s') = count_failure r c subject email s in
        (attempts ≡ suc n)
        × (r.get (failed_attempts subject email) s' ≡ some (count (suc n)))
        × (r.get (account_lock subject other) s' ≡ r.get (account_lock subject other) s)
  unfolding count_failure
  count_failure_lem email other n s h =
      let key = failed_attempts subject email in
      let lock = account_lock subject other in
      let s' = (c.incr key s).1 in
      let self = c.get-incr_self key s in
      let kept = c.get-incr_ne lock key s (counter_not_lock subject subject other email) in
      let expired = c.get-expire key key account_lockout_duration s' in
      let expired' = c.get-expire lock key account_lockout_duration s' in
      let counts = incr-Counted key (r.get key s) n s refl h in (counts, ground arith, ground arith)

  lock_account_lem :
      (email : String) (now : ℕ) (s : r.Store)
      → (r.set (account_lock subject email) (locked_at now) account_lockout_duration s).0 ≡ true
      → is_account_locked r c subject email (lock_account r c subject email now s)
        ≡ (true, some failed_attempt_error)
  unfolding is_account_locked lock_account Redis.create Redis.fetch
  lock_account_lem email now s taken =
      let kept =
        r.get-set_self (account_lock subject email) (locked_at now) account_lockout_duration s
          taken in
      rw (is_account_locked, kept) refl

  -- below the limit the store is the one of the counter, and from it on the one of the lock
  same_lock :
      (email other : String) (now : ℕ) (s t : r.Store)
      → (increment_failed_attempts r c subject email now s).1 ≡ t
      → r.get (account_lock subject other) t ≡ r.get (account_lock subject other) s
      → is_account_locked r c subject other (increment_failed_attempts r c subject email now s).1
        ≡ is_account_locked r c subject other s
  unfolding is_account_locked Redis.fetch
  same_lock email other now s t e lock = rw (e, is_account_locked, lock) refl

  now_locked :
      (email : String) (now : ℕ) (s : r.Store)
      → leb 3 (count_failure r c subject email s).0 ≡ true
      → (increment_failed_attempts r c subject email now s).1
        ≡ lock_account r c subject email now (count_failure r c subject email s).1
  unfolding increment_failed_attempts
  now_locked email now s h = ground arith

  -- The failed attempts of an address are counted one by one, from what the counter holds. The first two bring no
  -- error and leave every account's lock as it was. From the third on there is an error, and, once the server takes
  -- the write of the lock, the account is locked.
  pub increment-locks :
      (email other : String) (now n : ℕ) (s : r.Store)
      → Counted (r.get (failed_attempts subject email) s) n
      → let ((attempts, e), s') = increment_failed_attempts r c subject email now s in
        let counting = (count_failure r c subject email s).1 in
        (attempts ≡ suc n)
        × (ltb n 2 ≡ true
            → (e ≡ none)
              × (is_account_locked r c subject other s' ≡ is_account_locked r c subject other s))
        × (ltb n 2 ≡ false
            → (r.set
                (account_lock subject email)
                (locked_at now)
                account_lockout_duration
                counting).0
              ≡ true
            → (e ≡ some failed_attempt_error)
              × (is_account_locked r c subject email s' ≡ (true, some failed_attempt_error)))
  unfolding increment_failed_attempts
  increment-locks email other now n s h =
      let (counts, kept, lock) = count_failure_lem email other n s h in
      let counting = (count_failure r c subject email s).1 in
      (
        ground arith,
        λ few. (ground arith, same_lock email other now s counting (ground arith) lock),
        λ many taken. (
          ground arith,
          rw (now_locked email now s (ground arith)) (lock_account_lem email now counting taken),
        ),
      )

  -- A reset starts the count of an address anew, and leaves the lock of every account as it was.
  pub reset-starts_over :
      (email other : String) (now : ℕ) (s : r.Store)
      → let s' = reset_failed_attempts r c subject email s in
        (is_account_locked r c subject other s' ≡ is_account_locked r c subject other s)
        × ((increment_failed_attempts r c subject email now s').0 ≡ (1, none))
  unfolding reset_failed_attempts is_account_locked Redis.fetch Redis.remove
      increment_failed_attempts count_failure
  reset-starts_over email other now s =
      let key = failed_attempts subject email in
      let s' = (r.delete key s).1 in
      let kept =
        r.get-delete_ne (account_lock subject other) key s
          (counter_not_lock subject subject other email) in
      let gone = r.get-delete_self key s in
      let first = c.incr_first key s' gone in (rw (is_account_locked, kept) refl, ground arith)
