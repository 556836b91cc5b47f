-- ===== src/Pkce/Laws.antt =====
-- A challenge from its creation to its last verification.
use looprail_backend.Prelude.{
  ◌≡◌, ◌∙◌, ap, refl, true, false, none, some, String, List, [], ◌∷◌, str_eq, str_eq_iff, arith,
  Bool-cases, inl, inr,
}
use looprail_backend.Redis
use looprail_backend.Redis.{RedisServer, RedisError}
use looprail_backend.Pkce.{
  AuthChallenge, challenge_expired, new_challenge, create_challenge, verify_pkce, challenge_ttl,
}

module _ (r : RedisServer String AuthChallenge) (compute : String → String) where
  -- a verifier fails where its image is not the stored one
  abbrev pub Misses : String → List String → Type 0
  Misses code [] = Unit {0}
  Misses code (v ∷ vs) = (str_eq (compute v) (compute code) ≡ false) × Misses code vs

  -- attempts one after another, each at what the earlier one left
  abbrev pub attempts : String → List String → r.Store → r.Store
  attempts id [] s = s
  attempts id (v ∷ vs) s = attempts id vs (verify_pkce r compute id v s).1

  create-stores :
      (id nonce code : String) (s : r.Store) (challenge : AuthChallenge)
      → (create_challenge r compute id nonce code s).0.0 ≡ some challenge
      → r.get id (create_challenge r compute id nonce code s).1
        ≡ some (new_challenge r compute id nonce code)
  unfolding create_challenge Redis.create
  create-stores id nonce code s challenge h =
      let fresh = new_challenge r compute id nonce code in
      elim (Bool-cases (r.set id fresh challenge_ttl s).0) [
        | inl e ↦ ground (arith, r.get-set_self id fresh challenge_ttl s e)
        | inr e ↦ ground arith
      ]

  miss-keeps :
      (id verifier : String) (s : r.Store) (c : AuthChallenge)
      → r.get id s ≡ some c
      → str_eq (compute verifier) c.code_challenge ≡ false
      → verify_pkce r compute id verifier s ≡ ((false, none), s)
  unfolding verify_pkce Redis.fetch
  miss-keeps id verifier s c h ne = ground arith

  hit-removes :
      (id verifier : String) (s : r.Store) (c : AuthChallenge)
      → r.get id s ≡ some c
      → str_eq (compute verifier) c.code_challenge ≡ true
      → ((verify_pkce r compute id verifier s).0 ≡ (true, none))
        × (r.get id (verify_pkce r compute id verifier s).1 ≡ none)
  unfolding verify_pkce Redis.fetch Redis.remove
  hit-removes id verifier s c h eq = (ground arith, ground (arith, r.get-delete_self id s))

  gone-refused :
      (id verifier : String) (s : r.Store)
      → r.get id s ≡ none
      → (verify_pkce r compute id verifier s).0 ≡ (false, some challenge_expired)
  unfolding verify_pkce Redis.fetch
  gone-refused id verifier s h = ground arith

  attempts-Misses :
      (id code : String) (vs : List String) (s : r.Store) (c : AuthChallenge)
      → r.get id s ≡ some c
      → c.code_challenge ≡ compute code
      → Misses code vs
      → attempts id vs s ≡ s
  attempts-Misses id code [] s c h k m = refl
  attempts-Misses id code (v ∷ vs) s c h k (ne, m) =
      let miss = miss-keeps id v s c h (ap (str_eq (compute v)) k ∙ ne) in
      ap (λ x. attempts id vs x.1) miss ∙ attempts-Misses id code vs s c h k m

  -- After a challenge was created, and any number of verifiers with another image came, a verifier with the image of
  -- the challenge's text is accepted, and every verifier after it, the same one too, is refused as expired. The text
  -- itself is such a verifier, since it is stored as its image.
  pub verify_pkce_once :
      (id nonce code verifier later : String) (before : List String) (s : r.Store)
      (c : AuthChallenge)
      → (create_challenge r compute id nonce code s).0.0 ≡ some c
      → Misses code before
      → compute verifier ≡ compute code
      → let s' = attempts id before (create_challenge r compute id nonce code s).1 in
        ((verify_pkce r compute id verifier s').0 ≡ (true, none))
        × ((verify_pkce r compute id later (verify_pkce r compute id verifier s').1).0
            ≡ (false, some challenge_expired))
  verify_pkce_once id nonce code verifier later before s c made missed same =
      let fresh = new_challenge r compute id nonce code in
      let s0 = (create_challenge r compute id nonce code s).1 in
      let there = create-stores id nonce code s c made in
      let kept = attempts-Misses id code before s0 fresh there refl missed in
      let equal : str_eq (compute verifier) (compute code) ≡ true =
        ground (arith, str_eq_iff (compute verifier) (compute code)) in
      let hit = hit-removes id verifier s0 fresh there equal in
      rw kept (hit.0, gone-refused id later _ hit.1)
