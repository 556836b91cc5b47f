-- ===== src/Lock/Memory.antt =====
-- A server in memory for the keys of locks.
use looprail_backend.Prelude.{◌≡◌, ◌↔◌, Bool, true, false, ◌&&◌, String, arith, str_eq, str_eq_iff}
use looprail_backend.Redis.{RedisServer}
use looprail_backend.Redis.Memory.{memory}
use looprail_backend.Lock.{LockKey, owner, state}

abbrev pub key_beq : LockKey → LockKey → Bool
key_beq (owner p k) (owner q j) = str_eq p q && str_eq k j
key_beq (state p k) (state q j) = str_eq p q && str_eq k j
key_beq (owner p k) (state q j) = false
key_beq (state p k) (owner q j) = false

pub key_beq_iff : (a b : LockKey) → (key_beq a b ≡ true) ↔ (a ≡ b)
key_beq_iff (owner p k) (owner q j) = ground (arith, str_eq_iff p q, str_eq_iff k j)
key_beq_iff (state p k) (state q j) = ground (arith, str_eq_iff p q, str_eq_iff k j)
key_beq_iff (owner p k) (state q j) = ground arith
key_beq_iff (state p k) (owner q j) = ground arith

abbrev pub server : RedisServer LockKey String
server = memory key_beq key_beq_iff
