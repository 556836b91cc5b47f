-- ===== src/Deposits/StageLock.antt =====
-- The lock of one deposit as its tasks use it, and `Lock` behind it.
use looprail_backend.Prelude.{
  ℕ, ◌*◌, ◌≡◌, Bool, true, false, Option, none, some, String, arith, Option-cases, inl, inr,
}
use looprail_backend.Redis
use looprail_backend.Redis.{RedisServer}
use looprail_backend.Lock.{Lock, LockKey, state, acquire_from, get_state, set_state, release}
use looprail_backend.Lock.Laws.{get-state_set_state, get-state_release}

-- The calls of a task, and what it relies on. `false` is an error.
pub record StageLock : Type 1 where
  pub Store : Type 0
  pub acquire : Store → Bool × Store
  pub get_state : Store → Option String
  pub set_state : String → Store → Bool × Store
  pub release : Store → Bool × Store
  pub stage_set :
      (st : String) (s : Store) → (set_state st s).0 ≡ true → get_state (set_state st s).1 ≡ some st
  pub stage_refused :
      (st : String) (s : Store)
      → (set_state st s).0 ≡ false
      → get_state (set_state st s).1 ≡ get_state s
  pub stage_release : (s : Store) → get_state (release s).1 ≡ get_state s

abbrev pub succeeded : {E : Type 0} → Option E → Bool
succeeded none = true
succeeded (some _) = false

module _ (r : RedisServer LockKey String) (elapsed : ℕ → ℕ) (others : ℕ → r.Store → r.Store)
    (lock : Lock) (key_id v : String) (timeout fuel : ℕ) where
  -- `acquire` with fuel that is enough, so that `none` is not reached
  unfoldable pub acquire_within : r.Store → Bool × r.Store
  acquire_within s = elim (acquire_from r elapsed others lock key_id v timeout fuel 0 s) [
    | none ↦ (false, s)
    | some ((value, e), s') ↦ (succeeded e, s')
  ]

  unfoldable pub set_stage : String → r.Store → Bool × r.Store
  set_stage st s = let (e, s') = set_state r lock key_id st none s in (succeeded e, s')

  unfoldable pub release_owned : r.Store → Bool × r.Store
  release_owned s = let (e, s') = release r lock key_id v s in (succeeded e, s')

  pub set_stage-set :
      (st : String) (s : r.Store)
      → (set_stage st s).0 ≡ true
      → (get_state r lock key_id (set_stage st s).1).0 ≡ some st
  unfolding set_stage get_state
  set_stage-set st s h = elim (Option-cases (set_state r lock key_id st none s).0) [
    | inl done ↦ ground (arith, get-state_set_state r lock key_id st none s done)
    | inr (e, k) ↦ ground arith
  ]

  pub set_stage-refused :
      (st : String) (s : r.Store)
      → (set_stage st s).0 ≡ false
      → (get_state r lock key_id (set_stage st s).1).0 ≡ (get_state r lock key_id s).0
  unfolding set_stage get_state set_state
  set_stage-refused st s h =
      let k = state lock.prefix key_id in
      let s' = (r.set k st Redis.default_ttl s).1 in
      ground (
        arith,
        r.set_refused k st Redis.default_ttl s,
        r.set_refused k st (lock.ttl_seconds * 10) s',
      )

  pub release_owned-stage :
      (s : r.Store)
      → (get_state r lock key_id (release_owned s).1).0 ≡ (get_state r lock key_id s).0
  unfolding release_owned get_state
  release_owned-stage s = ground (arith, get-state_release r lock key_id v s)

  abbrev pub stage_lock : StageLock
  stage_lock = record {
    Store = r.Store;
    acquire = acquire_within;
    get_state = λ s. (get_state r lock key_id s).0;
    set_state = set_stage;
    release = release_owned;
    stage_set = set_stage-set;
    stage_refused = set_stage-refused;
    stage_release = release_owned-stage;
  }
