-- ===== src/Pkce.antt =====
-- The PKCE challenges of usecases/security_usecases.py, kept at Redis. `compute` is `compute_pkce_challenge`; the id and
-- the nonce of a new challenge, which the code draws at random, are arguments. That a key expires is left out.
pub mod Laws
mod Tests
use looprail_backend.Prelude.{
  ℕ, ◌*◌, Bool, true, false, Option, none, some, String, str_eq, if◌then◌else◌,
}
use looprail_backend.Redis
use looprail_backend.Redis.{RedisServer, RedisError}

-- `AuthChallenge`
pub record AuthChallenge : Type 0 where
  pub challenge_id : String
  pub code_challenge : String
  pub nonce : String

abbrev pub challenge_ttl : ℕ
challenge_ttl = 300

pub data PkceError : Type 0 where
  challenge_expired : PkceError

module _ (r : RedisServer String AuthChallenge) (compute : String → String) where
  abbrev pub new_challenge : String → String → String → AuthChallenge
  new_challenge id nonce code_challenge = record {
    challenge_id = id;
    code_challenge = compute code_challenge;
    nonce = nonce;
  }

  -- `create_challenge`; the keys are the ids, without their common prefix
  unfoldable pub create_challenge :
      String → String → String → r.Store → (Option AuthChallenge × Option RedisError) × r.Store
  create_challenge id nonce code_challenge s =
      let challenge = new_challenge id nonce code_challenge in
      let (error, s') = Redis.create r id challenge challenge_ttl s in
      elim error [ none ↦ ((some challenge, none), s') | some e ↦ ((none, some e), s') ]

  -- `verify_pkce`
  unfoldable pub verify_pkce : String → String → r.Store → (Bool × Option PkceError) × r.Store
  verify_pkce id code_verifier s = elim (Redis.fetch r id s).0 [
    | none ↦ ((false, some challenge_expired), s)
    | some challenge ↦
        if str_eq (compute code_verifier) challenge.code_challenge
        then ((true, none), (Redis.remove r id s).1)
        else ((false, none), s)
  ]
