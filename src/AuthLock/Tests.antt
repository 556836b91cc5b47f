-- ===== src/AuthLock/Tests.antt =====
-- An account at a server in memory.
use looprail_backend.Prelude.{
  ℕ, suc, ◌≡◌, ◌↔◌, Bool, true, false, ◌&&◌, Option, none, some, String, arith, str_eq, str_eq_iff,
  refl,
}
use looprail_backend.Redis.{RedisServer}
use looprail_backend.Redis.Memory.{memory, put, put_self, put_ne}
use looprail_backend.AuthLock.{
  AuthKey, failed_attempts, account_lock, AuthValue, count, locked_at, Counters,
  failed_attempt_error, count_failure, increment_failed_attempts, reset_failed_attempts,
  is_account_locked,
}
use looprail_backend.AuthLock.Laws.{increment-locks, reset-starts_over}

abbrev same_subject : Option String → Option String → Bool
same_subject none none = true
same_subject none (some b) = false
same_subject (some a) none = false
same_subject (some a) (some b) = str_eq a b

same_subject_iff : (a b : Option String) → (same_subject a b ≡ true) ↔ (a ≡ b)
same_subject_iff none none = ground arith
same_subject_iff none (some b) = ground arith
same_subject_iff (some a) none = ground arith
same_subject_iff (some a) (some b) = ground (arith, str_eq_iff a b)

abbrev key_beq : AuthKey → AuthKey → Bool
key_beq (failed_attempts a e) (failed_attempts b f) = same_subject a b && str_eq e f
key_beq (account_lock a e) (account_lock b f) = same_subject a b && str_eq e f
key_beq (failed_attempts a e) (account_lock b f) = false
key_beq (account_lock a e) (failed_attempts b f) = false

key_beq_iff : (j k : AuthKey) → (key_beq j k ≡ true) ↔ (j ≡ k)
key_beq_iff (failed_attempts a e) (failed_attempts b f) =
    ground (arith, same_subject_iff a b, str_eq_iff e f)
key_beq_iff (account_lock a e) (account_lock b f) =
    ground (arith, same_subject_iff a b, str_eq_iff e f)
key_beq_iff (failed_attempts a e) (account_lock b f) = ground arith
key_beq_iff (account_lock a e) (failed_attempts b f) = ground arith

abbrev server : RedisServer AuthKey AuthValue
server = memory key_beq key_beq_iff

abbrev value_of : Option AuthValue → ℕ
value_of none = 0
value_of (some (count n)) = n
value_of (some (locked_at n)) = 0

abbrev incremented : AuthKey → server.Store → ℕ × server.Store
incremented k s = (suc (value_of (s k)), put key_beq k (some (count (suc (value_of (s k))))) s)

first : (k : AuthKey) (s : server.Store) → s k ≡ none → suc (value_of (s k)) ≡ 1
first k s e = ground arith

following :
    (k : AuthKey) (n : ℕ) (s : server.Store) → s k ≡ some (count n) → suc (value_of (s k)) ≡ suc n
following k n s e = ground arith

abbrev counters : Counters server
counters = record {
  incr = incremented;
  expire = λ k ttl s. s;
  incr_first = first;
  incr_next = following;
  get-incr_self = λ k s. put_self key_beq key_beq_iff k (some (count (suc (value_of (s k))))) s;
  get-incr_ne = λ j k s h. put_ne key_beq key_beq_iff j k (some (count (suc (value_of (s k))))) s h;
  get-expire = λ j k ttl s. refl;
}

abbrev after_two : server.Store
after_two = put key_beq (failed_attempts none "ada@x") (some (count 2)) (λ _. none)

increment-locks_example :
    is_account_locked server counters none "ada@x"
      (increment_failed_attempts server counters none "ada@x" 5 after_two).1
    ≡ (true, some failed_attempt_error)
unfolding count_failure
increment-locks_example =
    ((increment-locks server counters none "ada@x" "bob@x" 5 2 after_two refl).2 refl refl).1

reset-starts_over_example :
    let s' = reset_failed_attempts server counters none "ada@x" after_two in
    (is_account_locked server counters none "bob@x" s'
      ≡ is_account_locked server counters none "bob@x" after_two)
    × ((increment_failed_attempts server counters none "ada@x" 5 s').0 ≡ (1, none))
reset-starts_over_example = reset-starts_over server counters none "ada@x" "bob@x" 5 after_two
