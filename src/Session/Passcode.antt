-- ===== src/Session/Passcode.antt =====
-- The passcode of a session, from its setting to its verification.
use looprail_backend.Prelude.{
  ℕ, ◌≡◌, true, false, none, some, String, List, [], ◌∷◌, str_eq, arith, Option-cases, inl, inr,
}
use looprail_backend.Database.{Database, save}
use looprail_backend.Session.{
  Session, Tables, Env, find_session, put_session, get_session, update_session, set_passcode,
  verify_passcode,
}
use looprail_backend.Session.Revocation.{find_session_id}

find_session-put_active :
    (s old : Session) (rows : List Session)
    → find_session s.id rows ≡ some old
    → s.revoked_at ≡ none
    → find_session s.id (put_session s rows) ≡ some s
find_session-put_active s old [] h k = ground arith
find_session-put_active s old (r ∷ rows) h k =
    ground
      (arith, λ (m : find_session s.id rows ≡ some old). find_session-put_active s old rows m k)

find_session-active :
    (id : ℕ) (rows : List Session) (s : Session)
    → find_session id rows ≡ some s
    → s.revoked_at ≡ none
find_session-active id [] s h = ground arith
find_session-active id (r ∷ rows) s h = ground (arith, find_session-active id rows s)

-- A passcode that was set without an error is accepted afterwards, and another one is accepted exactly if the
-- verification of passwords takes it for the hash. The hash of a passcode must not be empty, and the verification
-- must take a passcode for its own hash, as Argon2 does.
pub verify-set_passcode :
    (env : Env) (id : ℕ) (passcode other : String) (db : Database Tables)
    → (set_passcode env id passcode db).0 ≡ none
    → str_eq (env.hash_password passcode) "" ≡ false
    → env.verify_password passcode (env.hash_password passcode) ≡ true
    → let db' = (set_passcode env id passcode db).1 in
      (verify_passcode env id passcode db' ≡ (true, none))
      × (verify_passcode env id other db'
          ≡ (env.verify_password other (env.hash_password passcode), none))
unfolding set_passcode update_session save get_session verify_passcode
verify-set_passcode env id passcode other db done nonempty accepted =
    let rows = db.current.sessions in
    elim (Option-cases (find_session id rows)) [
      | inl missing ↦ (ground arith, ground arith)
      | inr (s, e) ↦
          let row : Session = record s { passcode_hash = some (env.hash_password passcode) } in
          let same = find_session_id id rows s e in
          let open_row = find_session-active id rows s e in
          let found : find_session s.id rows ≡ some s = ground arith in
          let put = find_session-put_active row s rows found open_row in
          (ground arith, ground arith)
    ]
