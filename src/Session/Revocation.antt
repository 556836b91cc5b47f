-- ===== src/Session/Revocation.antt =====
-- A revoked session is gone, and so are its refresh tokens.
use looprail_backend.Prelude.{
  ℕ, ◌≡◌, ◌≢◌, refl, none, some, String, List, [], ◌∷◌, arith, Option-cases, inl, inr,
}
use looprail_backend.Database.{Database, save}
use looprail_backend.Session.{
  Tables, Session, RefreshToken, Env, find_session, put_session, get_session, update_session,
  revoke_row, revoke_tokens_in, revoke_tokens, revoke_session,
}
use looprail_backend.Session.Token.{first_valid, get_valid_refresh_token_by_hash}

find_session-put_session :
    (s : Session) (now : ℕ) (rows : List Session)
    → s.revoked_at ≡ some now
    → find_session s.id (put_session s rows) ≡ none
find_session-put_session s now [] h = refl
find_session-put_session s now (r ∷ rows) h = ground (arith, find_session-put_session s now rows h)

pub find_session_id :
    (id : ℕ) (rows : List Session) (s : Session) → find_session id rows ≡ some s → s.id ≡ id
find_session_id id [] s h = ground arith
find_session_id id (r ∷ rows) s h = ground (arith, find_session_id id rows s)

first_valid-revoke_tokens_in :
    (now now' id : ℕ) (hash : String) (ts : List RefreshToken) (t : RefreshToken)
    → first_valid now hash (revoke_tokens_in now' id ts) ≡ some t
    → t.session_id ≢ id
first_valid-revoke_tokens_in now now' id hash [] t h = ground arith
first_valid-revoke_tokens_in now now' id hash (r ∷ ts) t h =
    ground (arith, first_valid-revoke_tokens_in now now' id hash ts t)

-- Once a session was revoked without an error, it is not found any more, and no refresh token that is still
-- valid belongs to it, whichever hash is looked for.
pub revoke_session-closes :
    (env : Env) (id : ℕ) (hash : String) (db : Database Tables)
    → (revoke_session env id db).0 ≡ none
    → (get_session id (revoke_session env id db).1 ≡ none)
      × ((t : RefreshToken)
          → get_valid_refresh_token_by_hash env hash (revoke_session env id db).1 ≡ some t
          → t.session_id ≢ id)
unfolding revoke_session revoke_row revoke_tokens update_session save get_session
    get_valid_refresh_token_by_hash
revoke_session-closes env id hash db h =
    let rows = db.current.sessions in
    elim (Option-cases (find_session id rows)) [
      | inl missing ↦ ground arith
      | inr (s, e) ↦
          let row : Session = record s { revoked_at = some env.now } in
          let gone = find_session-put_session row env.now rows refl in
          let same = find_session_id id rows s e in
          (
            ground arith,
            λ t k.
                first_valid-revoke_tokens_in env.now env.now id hash db.current.tokens t
                  (ground arith),
          )
    ]
