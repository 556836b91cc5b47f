-- ===== src/Redis.antt =====
-- infrastructure/redis.py: the client's commands over a Redis server, which is an interface.
-- `K` are the keys that a component uses and `V` the values that it stores, before JSON.
pub mod Memory
use looprail_backend.Prelude.{
  ℕ, ◌*◌, ◌<◌, ◌≡◌, ◌≢◌, Bool, true, false, Option, none, some, List, [], ◌∷◌, ltb, if◌then◌else◌,
}

-- What the client relies on of the server: SET stores a value whether or not the key is there,
-- DEL counts the keys that it removes, and neither touches another key.
pub record RedisServer (K V : Type 0) : Type 1 where
  pub Store : Type 0
  pub get : K → Store → Option V
  -- SET key value EX ttl; `false` where the server refuses
  pub set : K → V → ℕ → Store → Bool × Store
  -- DEL key
  pub delete : K → Store → ℕ × Store
  pub get-set_self :
      (k : K) (v : V) (ttl : ℕ) (s : Store)
      → (set k v ttl s).0 ≡ true
      → get k (set k v ttl s).1 ≡ some v
  pub get-set_ne :
      (j k : K) (v : V) (ttl : ℕ) (s : Store) → j ≢ k → get j (set k v ttl s).1 ≡ get j s
  pub set_refused :
      (k : K) (v : V) (ttl : ℕ) (s : Store) → (set k v ttl s).0 ≡ false → (set k v ttl s).1 ≡ s
  pub get-delete_self : (k : K) (s : Store) → get k (delete k s).1 ≡ none
  pub get-delete_ne : (j k : K) (s : Store) → j ≢ k → get j (delete k s).1 ≡ get j s
  pub delete_some : (k : K) (v : V) (s : Store) → get k s ≡ some v → (delete k s).0 ≡ 1

-- a command that waits in a pipeline
pub data Command (K V : Type 0) : Type 0 where
  set_key : K → V → ℕ → Command K V
  delete_key : K → Command K V

module _ {K V : Type 0} (r : RedisServer K V) where
  -- the queued commands one after another
  abbrev pub run : List (Command K V) → r.Store → r.Store
  run [] s = s
  run (set_key k v ttl ∷ cs) s = run cs (r.set k v ttl s).1
  run (delete_key k ∷ cs) s = run cs (r.delete k s).1

  -- the server takes each write among them
  abbrev pub Accepted : List (Command K V) → r.Store → Type 0
  Accepted [] s = Unit {0}
  Accepted (set_key k v ttl ∷ cs) s = ((r.set k v ttl s).0 ≡ true) × Accepted cs (r.set k v ttl s).1
  Accepted (delete_key k ∷ cs) s = Accepted cs (r.delete k s).1

  -- MULTI and EXEC: all of the commands or none
  pub record Transactions : Type 1 where
    pub exec : List (Command K V) → r.Store → Bool × r.Store
    pub exec_accepted :
        (cs : List (Command K V)) (s : r.Store) → (exec cs s).0 ≡ true → Accepted cs s
    pub exec_done :
        (cs : List (Command K V)) (s : r.Store) → (exec cs s).0 ≡ true → (exec cs s).1 ≡ run cs s
    pub exec_failed :
        (cs : List (Command K V)) (s : r.Store) → (exec cs s).0 ≡ false → (exec cs s).1 ≡ s

pub data RedisError : Type 0 where
  -- `NotFoundError`, error("Could not upload to redis") and error("Transaction failed: …")
  not_found could_not_upload transaction_failed : RedisError

-- `TTL`, which SET takes as seconds
abbrev pub default_ttl : ℕ
default_ttl = 60 * 1000

module _ {K V : Type 0} (r : RedisServer K V) where
  -- `RedisClient.create`; `none` is success
  unfoldable pub create : K → V → ℕ → r.Store → Option RedisError × r.Store
  create key value ttl s =
      let (success, s') = r.set key value ttl s in
      (if success then none else some could_not_upload, s')

  -- `RedisClient.get`: the value or `NotFoundError`
  unfoldable pub fetch : K → r.Store → Option V × Option RedisError
  fetch key s = elim (r.get key s) [ none ↦ (none, some not_found) | some v ↦ (some v, none) ]

  -- `RedisClient.update`
  unfoldable pub update : K → V → r.Store → Option RedisError × r.Store
  unfolding create
  update key value s = create key value default_ttl s

  -- `RedisClient.delete`
  unfoldable pub remove : K → r.Store → Bool × r.Store
  remove key s = let (deleted_count, s') = r.delete key s in (ltb 0 deleted_count, s')

module _ {K V : Type 0} (r : RedisServer K V) (t : Transactions r) where
  -- `RedisTransaction.commit`; `none` is success
  unfoldable pub commit : List (Command K V) → r.Store → Option RedisError × r.Store
  commit commands s =
      let (done, s') = t.exec commands s in (if done then none else some transaction_failed, s')
