-- ===== src/Lock/Tests.antt =====
-- The lock theorems at a server in memory.
use looprail_backend.Prelude.{◌≡◌, ◌≢◌, none, some, String, arith, str_eq_iff, refl}
use looprail_backend.Redis.Memory.{put}
use looprail_backend.Lock.{Lock, LockKey, owner, ownership_mismatch, acquire_from, release}
use looprail_backend.Lock.Memory.{key_beq, server}
use looprail_backend.Lock.Laws.{
  Holds, acquired, acquire_overtakes_holder, release_owner, acquire_total,
}

abbrev deposits : Lock
deposits = record { prefix = "deposits"; ttl_seconds = 30 }

abbrev held_by_a : server.Store
held_by_a = put key_beq (owner "deposits" "0xabc") (some "a") (λ _. none)

a_ne_b : ◌≢◌ {A = String} "a" "b"
a_ne_b = ground (arith, str_eq_iff "a" "b")

acquire_overtakes_holder_example :
    (acquire_from server (λ n. n) (λ _ s. s) deposits "0xabc" "b" 30 60 0 held_by_a
      ≡ some ((some "b", none), acquired server deposits "0xabc" "b" held_by_a))
    × Holds server deposits "0xabc" "b" (acquired server deposits "0xabc" "b" held_by_a)
    × (release server deposits "0xabc" "a" (acquired server deposits "0xabc" "b" held_by_a)
        ≡ (some ownership_mismatch, acquired server deposits "0xabc" "b" held_by_a))
acquire_overtakes_holder_example =
    acquire_overtakes_holder server (λ n. n) (λ _ s. s) deposits "0xabc" "b" "a" 30 59 held_by_a
      refl a_ne_b refl

release_owner_example :
    let (e, s') = release server deposits "0xabc" "a" held_by_a in
    (e ≡ none)
    × (server.get (owner "deposits" "0xabc") s' ≡ none)
    × ((j : LockKey) → j ≢ owner "deposits" "0xabc" → server.get j s' ≡ server.get j held_by_a)
release_owner_example = release_owner server deposits "0xabc" "a" held_by_a refl

acquire_total_example :
    acquire_from server (λ n. n) (λ _ s. s) deposits "0xabc" "b" 30 31 0 held_by_a ≢ none
acquire_total_example =
    acquire_total server (λ n. n) (λ _ s. s) deposits "0xabc" "b" 30 30 0 held_by_a (omega arith)
