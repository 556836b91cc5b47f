-- ===== src/Lock.antt =====
-- infrastructure/services/lock_service.py: a lock is a Redis key that holds its owner's value.
pub mod Laws
pub mod Memory
mod Tests
use looprail_backend.Prelude.{
  ℕ, zero, suc, ◌*◌, ◌||◌, Option, none, some, String, str_eq, leb, if◌then◌else◌,
}
use looprail_backend.Redis
use looprail_backend.Redis.{RedisServer, RedisError}

-- f"lock:{key_prefix}:{key_id}" and f"lock:{key_prefix}:{key_id}:state"
pub data LockKey : Type 0 where
  owner state : String → String → LockKey

pub data LockError : Type 0 where
  redis : RedisError → LockError
  ownership_mismatch : LockError
  failed_to_delete : LockError

-- `Lock.__init__`
pub record Lock : Type 0 where
  pub prefix : String
  pub ttl_seconds : ℕ

module _ (r : RedisServer LockKey String) where
  -- one pass of the loop of `acquire`
  unfoldable pub try_acquire : Lock → String → String → r.Store → Option RedisError × r.Store
  unfolding Redis.create
  try_acquire lock key_id lock_value =
      Redis.create r (owner lock.prefix key_id) lock_value lock.ttl_seconds

  -- `Lock.acquire`. `elapsed n` is the clock since the start after pass `n`, and `others n` is
  -- what happens to the store in the sleep behind it. `none`: the fuel ran out.
  unfoldable pub acquire_from :
      (ℕ → ℕ)
      → (ℕ → r.Store → r.Store)
      → Lock
      → String
      → String
      → ℕ
      → ℕ
      → ℕ
      → r.Store
      → Option ((Option String × Option RedisError) × r.Store)
  acquire_from elapsed others lock key_id lock_value timeout zero n s = none
  acquire_from elapsed others lock key_id lock_value timeout (suc fuel) n s =
      let (e, s') = try_acquire lock key_id lock_value s in
      let again =
        acquire_from elapsed others lock key_id lock_value timeout fuel (suc n) (others n s') in
      elim e [
        | none ↦ some ((some lock_value, none), s')
        | some why ↦
            if leb timeout 0 || leb timeout (elapsed n) then some ((none, some why), s') else again
      ]

  -- `Lock.set_state`: `update`, and `create` with the longer time to live if that failed
  unfoldable pub set_state :
      Lock → String → String → Option ℕ → r.Store → Option RedisError × r.Store
  unfolding Redis.create Redis.update
  set_state lock key_id st ttl s =
      let effective_ttl : ℕ = elim ttl [ none ↦ lock.ttl_seconds * 10 | some t ↦ t ] in
      let (e, s') = Redis.update r (state lock.prefix key_id) st s in
      elim e [
        | none ↦ (none, s')
        | some _ ↦ Redis.create r (state lock.prefix key_id) st effective_ttl s'
      ]

  -- `Lock.get_state`
  unfoldable pub get_state : Lock → String → r.Store → Option String × Option RedisError
  unfolding Redis.fetch
  get_state lock key_id = Redis.fetch r (state lock.prefix key_id)

  -- `Lock.release`; `none` is success
  unfoldable pub release : Lock → String → String → r.Store → Option LockError × r.Store
  unfolding Redis.fetch Redis.remove
  release lock key_id lock_value s =
      let (current, _) = Redis.fetch r (owner lock.prefix key_id) s in
      let (deleted, s') = Redis.remove r (owner lock.prefix key_id) s in
      elim current [
        | none ↦ (some (redis RedisError.not_found), s)
        | some current_value ↦
            if str_eq current_value lock_value
            then (if deleted then none else some failed_to_delete, s')
            else (some ownership_mismatch, s)
      ]
