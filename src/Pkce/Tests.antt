-- ===== src/Pkce/Tests.antt =====
-- A challenge at a server in memory, with each text as its own image.
use looprail_backend.Prelude.{
  ◌≡◌, refl, true, false, none, some, String, [], ◌∷◌, str_eq, str_eq_iff,
}
use looprail_backend.Redis.{RedisServer}
use looprail_backend.Redis.Memory.{memory}
use looprail_backend.Pkce.{AuthChallenge, challenge_expired, create_challenge, verify_pkce}
use looprail_backend.Pkce.Laws.{attempts, verify_pkce_once}

abbrev server : RedisServer String AuthChallenge
server = memory str_eq str_eq_iff

abbrev compute : String → String
compute text = text

verify_pkce_once_example :
    let s =
      attempts server compute "id"
        ("wrong" ∷ [])
        (create_challenge server compute "id" "nonce" "code" (λ key. none)).1 in
    ((verify_pkce server compute "id" "code" s).0 ≡ (true, none))
    × ((verify_pkce server compute "id" "code" (verify_pkce server compute "id" "code" s).1).0
        ≡ (false, some challenge_expired))
unfolding create_challenge looprail_backend.Redis.create
verify_pkce_once_example =
    verify_pkce_once server compute "id" "nonce" "code" "code" "code" ("wrong" ∷ []) (λ key. none)
      (record { challenge_id = "id"; code_challenge = "code"; nonce = "nonce" }) refl (refl, tt)
      refl
