-- ===== src/Redis/Memory.antt =====
-- A server that accepts every write, as a function from keys, which meets the interface.
use looprail_backend.Prelude.{
  ℕ, ◌≡◌, ◌≢◌, ◌↔◌, Bool, true, false, refl, List, [], ◌∷◌, Option, none, some, arith,
  if◌then◌else◌,
}
use looprail_backend.Redis.{RedisServer, Transactions, Command, set_key, delete_key, Accepted, run}

module _ {K V : Type 0} (beq : K → K → Bool) where
  abbrev pub put : K → Option V → (K → Option V) → K → Option V
  put k o s j = if beq j k then o else s j

  -- how many keys DEL removes
  abbrev pub stored : Option V → ℕ
  stored none = 0
  stored (some _) = 1

  module _ (beq_iff : (a b : K) → (beq a b ≡ true) ↔ (a ≡ b)) where
    pub put_self : (k : K) (o : Option V) (s : K → Option V) → put k o s k ≡ o
    put_self k o s = ground (arith, beq_iff k k)

    pub put_ne : (j k : K) (o : Option V) (s : K → Option V) → j ≢ k → put k o s j ≡ s j
    put_ne j k o s h = ground (arith, beq_iff j k)

    pub deleted_one : (k : K) (v : V) (s : K → Option V) → s k ≡ some v → stored (s k) ≡ 1
    deleted_one k v s e = ground arith

    pub not_refused : (k : K) (v : V) (s : K → Option V) → true ≡ false → put k (some v) s ≡ s
    not_refused k v s h = cc

    abbrev pub memory : RedisServer K V
    memory = record {
      Store = K → Option V;
      get = λ k s. s k;
      set = λ k v _ s. (true, put k (some v) s);
      delete = λ k s. (stored (s k), put k none s);
      get-set_self = λ k v _ s _. put_self k (some v) s;
      get-set_ne = λ j k v _ s h. put_ne j k (some v) s h;
      set_refused = λ k v _ s. not_refused k v s;
      get-delete_self = λ k s. put_self k none s;
      get-delete_ne = λ j k s h. put_ne j k none s h;
      delete_some = deleted_one;
    }

    pub all-Accepted : (cs : List (Command K V)) (s : K → Option V) → Accepted memory cs s
    all-Accepted [] s = tt
    all-Accepted (set_key k v ttl ∷ cs) s = (refl, all-Accepted cs (put k (some v) s))
    all-Accepted (delete_key k ∷ cs) s = all-Accepted cs (put k none s)

    pub not_failed :
        (cs : List (Command K V)) (s : K → Option V) → true ≡ false → run memory cs s ≡ s
    not_failed cs s h = cc

    abbrev pub memory_transactions : Transactions memory
    memory_transactions = record {
      exec = λ cs s. (true, run memory cs s);
      exec_accepted = λ cs s _. all-Accepted cs s;
      exec_done = λ cs s _. refl;
      exec_failed = not_failed;
    }
