-- ===== src/Lock/Laws.antt =====
-- Acquiring and releasing a lock of lock_service.py, for every server that meets the interface.
use looprail_backend.Prelude.{
  ℕ, zero, suc, ◌+◌, ◌*◌, ap, ◌≤◌, ◌≡◌, ◌≢◌, true, Option, none, some, String, arith, str_eq_iff,
}
use looprail_backend.Redis
use looprail_backend.Redis.{RedisServer, RedisError}
use looprail_backend.Lock.{
  Lock, LockKey, owner, state, ownership_mismatch, try_acquire, acquire_from, release, set_state,
  get_state,
}

module _ (r : RedisServer LockKey String) where
  -- The server takes the write of a new owner.
  abbrev pub Accepts : Lock → String → String → r.Store → Type 0
  Accepts lock key_id v s = (r.set (owner lock.prefix key_id) v lock.ttl_seconds s).0 ≡ true

  abbrev pub Holds : Lock → String → String → r.Store → Type 0
  Holds lock key_id v s = r.get (owner lock.prefix key_id) s ≡ some v

  abbrev pub acquired : Lock → String → String → r.Store → r.Store
  acquired lock key_id v s = (r.set (owner lock.prefix key_id) v lock.ttl_seconds s).1

  acquired-Holds :
      (lock : Lock) (key_id v : String) (s : r.Store)
      → Accepts lock key_id v s
      → Holds lock key_id v (acquired lock key_id v s)
  acquired-Holds lock key_id v s = r.get-set_self (owner lock.prefix key_id) v lock.ttl_seconds s

  acquire_step :
      (elapsed : ℕ → ℕ) (others : ℕ → r.Store → r.Store) (lock : Lock) (key_id v : String)
      (timeout fuel n : ℕ) (s : r.Store)
      → Accepts lock key_id v s
      → acquire_from r elapsed others lock key_id v timeout (suc fuel) n s
        ≡ some ((some v, none), acquired lock key_id v s)
  unfolding acquire_from try_acquire
  acquire_step elapsed others lock key_id v timeout fuel n s h = ground arith

  release_stranger :
      (lock : Lock) (key_id v w : String) (s : r.Store)
      → Holds lock key_id w s
      → v ≢ w
      → release r lock key_id v s ≡ (some ownership_mismatch, s)
  unfolding release
  release_stranger lock key_id v w s h ne = ground (arith, str_eq_iff w v)

  -- Once the server takes its write, the first pass of `acquire` succeeds although another owner
  -- `w` holds the lock: the key then holds `v`, and a release by `w` is refused and changes nothing.
  pub acquire_overtakes_holder :
      (elapsed : ℕ → ℕ) (others : ℕ → r.Store → r.Store) (lock : Lock) (key_id v w : String)
      (timeout fuel : ℕ) (s : r.Store)
      → Holds lock key_id w s
      → w ≢ v
      → Accepts lock key_id v s
      → (acquire_from r elapsed others lock key_id v timeout (suc fuel) 0 s
          ≡ some ((some v, none), acquired lock key_id v s))
        × Holds lock key_id v (acquired lock key_id v s)
        × (release r lock key_id w (acquired lock key_id v s)
            ≡ (some ownership_mismatch, acquired lock key_id v s))
  acquire_overtakes_holder elapsed others lock key_id v w timeout fuel s _ ne h =
      let held = acquired-Holds lock key_id v s h in
      (
        acquire_step elapsed others lock key_id v timeout fuel 0 s h,
        held,
        release_stranger lock key_id w v (acquired lock key_id v s) held ne,
      )

  -- The owner's release succeeds and frees the key, and leaves the owner and the state of every
  -- other key alone.
  pub release_owner :
      (lock : Lock) (key_id v : String) (s : r.Store)
      → Holds lock key_id v s
      → let (e, s') = release r lock key_id v s in
        (e ≡ none)
        × (r.get (owner lock.prefix key_id) s' ≡ none)
        × ((j : LockKey) → j ≢ owner lock.prefix key_id → r.get j s' ≡ r.get j s)
  unfolding release
  release_owner lock key_id v s h =
      let k = owner lock.prefix key_id in
      (
        ground (arith, str_eq_iff v v, r.delete_some k v s h),
        ground (arith, str_eq_iff v v, r.get-delete_self k s),
        λ j ne. ground (arith, str_eq_iff v v, r.get-delete_ne j k s ne),
      )

  -- With a clock that has reached the timeout after some pass, `acquire` returns within that many
  -- passes more, whatever the server answers and whatever the others do.
  pub acquire_total :
      (elapsed : ℕ → ℕ) (others : ℕ → r.Store → r.Store) (lock : Lock) (key_id v : String)
      (timeout fuel n : ℕ) (s : r.Store)
      → timeout ≤ elapsed (n + fuel)
      → acquire_from r elapsed others lock key_id v timeout (suc fuel) n s ≢ none
  unfolding acquire_from
  acquire_total elapsed others lock key_id v timeout zero n s h =
      let here : elapsed (n + 0) ≡ elapsed n = ap elapsed (omega arith) in ground arith
  acquire_total elapsed others lock key_id v timeout (suc fuel) n s h =
      let later : elapsed (n + suc fuel) ≡ elapsed (suc n + fuel) = ap elapsed (omega arith) in
      let s' = (try_acquire r lock key_id v s).1 in
      let rest =
        acquire_total elapsed others lock key_id v timeout fuel (suc n) (others n s')
          (omega arith) in
      ground arith

  get-state_acquired :
      (lock : Lock) (key_id v : String) (s : r.Store)
      → r.get (state lock.prefix key_id) (acquired lock key_id v s)
        ≡ r.get (state lock.prefix key_id) s
  get-state_acquired lock key_id v s =
      r.get-set_ne (state lock.prefix key_id) (owner lock.prefix key_id) v lock.ttl_seconds s
        (λ e. cc)

  pub get-state_release :
      (lock : Lock) (key_id v : String) (s : r.Store)
      → r.get (state lock.prefix key_id) (release r lock key_id v s).1
        ≡ r.get (state lock.prefix key_id) s
  unfolding release
  get-state_release lock key_id v s =
      ground
        (arith, r.get-delete_ne (state lock.prefix key_id) (owner lock.prefix key_id) s (λ e. cc))

  pub get-state_set_state :
      (lock : Lock) (key_id st : String) (ttl : Option ℕ) (s : r.Store)
      → (set_state r lock key_id st ttl s).0 ≡ none
      → r.get (state lock.prefix key_id) (set_state r lock key_id st ttl s).1 ≡ some st
  unfolding set_state
  get-state_set_state lock key_id st ttl s h =
      let k = state lock.prefix key_id in
      let s' = (r.set k st Redis.default_ttl s).1 in
      let t : ℕ = elim ttl [ none ↦ lock.ttl_seconds * 10 | some t ↦ t ] in
      ground (arith, r.get-set_self k st Redis.default_ttl s, r.get-set_self k st t s')

  -- What `set_state` stored is what `get_state` reads, and neither an acquisition nor a release
  -- of the lock changes it.
  pub get_state-set_state :
      (lock : Lock) (key_id st v : String) (ttl : Option ℕ) (s : r.Store)
      → (set_state r lock key_id st ttl s).0 ≡ none
      → let s' = (set_state r lock key_id st ttl s).1 in
        (get_state r lock key_id s' ≡ (some st, none))
        × (get_state r lock key_id (acquired lock key_id v s') ≡ (some st, none))
        × (get_state r lock key_id (release r lock key_id v s').1 ≡ (some st, none))
  unfolding get_state
  get_state-set_state lock key_id st v ttl s h =
      let s' = (set_state r lock key_id st ttl s).1 in
      let stored = get-state_set_state lock key_id st ttl s h in
      (
        ground arith,
        ground (arith, get-state_acquired lock key_id v s'),
        ground (arith, get-state_release lock key_id v s'),
      )
