-- ===== src/Session/Reuse.antt =====
-- The rotation of refresh tokens, and what happens when a replaced one is presented again.
use looprail_backend.Prelude.{
  ℕ, ◌+◌, ◌≡◌, ◌≢◌, refl, true, false, Option, none, some, String, List, [], ◌∷◌, ◌++◌, ltb, arith,
}
use looprail_backend.Database.{Database, DatabaseError, save, commit}
use looprail_backend.Session.{Tables, RefreshToken, Env, get_session, revoke_session}
use looprail_backend.Session.Token.{
  is_valid_with, first_valid, put_token, create_refresh_token, mark_refresh_token_as_replaced,
  rotate_refresh_token, get_valid_refresh_token_by_hash, TokenReply, token_reused, refreshed,
  refresh_token,
}
use looprail_backend.Session.Revocation.{revoke_session-closes}

first_valid-is_valid :
    (now : ℕ) (hash : String) (ts : List RefreshToken) (t : RefreshToken)
    → first_valid now hash ts ≡ some t
    → is_valid_with now hash t ≡ true
first_valid-is_valid now hash [] t h = ground arith
first_valid-is_valid now hash (r ∷ ts) t h = ground (arith, first_valid-is_valid now hash ts t)

-- The changed row is found in place of the old one, also later, as long as it has not expired.
first_valid-put_token :
    (now later : ℕ) (hash : String) (ts : List RefreshToken) (t new : RefreshToken)
    → first_valid now hash ts ≡ some t
    → new.id ≡ t.id
    → is_valid_with later hash new ≡ true
    → ltb later now ≡ false
    → first_valid later hash (put_token new ts) ≡ some new
first_valid-put_token now later hash [] t new h i v l = ground arith
first_valid-put_token now later hash (r ∷ ts) t new h i v l = ground (
  arith,
  λ (k : first_valid now hash ts ≡ some t). first_valid-put_token now later hash ts t new k i v l,
)

first_valid-append :
    (now : ℕ) (hash : String) (ts us : List RefreshToken) (t : RefreshToken)
    → first_valid now hash ts ≡ some t
    → first_valid now hash (ts ++ us) ≡ some t
first_valid-append now hash [] us t h = ground arith
first_valid-append now hash (r ∷ ts) us t h = ground (arith, first_valid-append now hash ts us t)

refresh_token-replaces :
    (env : Env) (id later : ℕ) (token device new : String) (session : ℕ) (old : RefreshToken)
    (db : Database Tables)
    → get_valid_refresh_token_by_hash env (env.sha256 token) db ≡ some old
    → (refresh_token env id token device new db).0 ≡ refreshed session new
    → ltb later env.now ≡ false
    → ltb later old.expires_at ≡ true
    → get_valid_refresh_token_by_hash
        (record env { now = later })
        (env.sha256 token)
        (commit (refresh_token env id token device new db).1)
      ≡ some (record old { replaced_by_hash = some (env.sha256 new) })
unfolding refresh_token rotate_refresh_token create_refresh_token mark_refresh_token_as_replaced
    save commit get_valid_refresh_token_by_hash
refresh_token-replaces env id later token device new session old db valid done after alive =
    let hash = env.sha256 token in
    let old' : RefreshToken = record old { replaced_by_hash = some (env.sha256 new) } in
    let row : RefreshToken = record {
      id = id;
      session_id = old.session_id;
      token_hash = env.sha256 new;
      replaced_by_hash = none;
      revoked_at = none;
      expires_at = env.now + env.refresh_token_expires_in;
    } in
    let rows = put_token old' db.current.tokens in
    let is_valid = first_valid-is_valid env.now hash db.current.tokens old valid in
    let put =
      first_valid-put_token env.now later hash db.current.tokens old old' valid refl (ground arith)
        after in
    let kept = first_valid-append later hash rows (row ∷ []) old' put in ground arith

refresh_token-replaced :
    (env : Env) (id : ℕ) (token device new h : String) (old : RefreshToken) (db : Database Tables)
    → get_valid_refresh_token_by_hash env (env.sha256 token) db ≡ some old
    → old.replaced_by_hash ≡ some h
    → refresh_token env id token device new db
      ≡ (token_reused, (revoke_session env old.session_id db).1)
unfolding refresh_token
refresh_token-replaced env id token device new h old db found replaced = ground arith

-- A token was exchanged for a new one, and the request committed. Then the same token, presented again before
-- it expires, from whatever device, is answered by `token_reused`, and its session is revoked. Once that goes
-- through, the session is not found any more, and no valid refresh token belongs to it: the new one is refused too.
pub refresh_token-reuse :
    (env : Env) (id id' later : ℕ) (token device device' new new' : String) (session : ℕ)
    (old : RefreshToken) (db : Database Tables) (hash : String)
    → get_valid_refresh_token_by_hash env (env.sha256 token) db ≡ some old
    → (refresh_token env id token device new db).0 ≡ refreshed session new
    → ltb later env.now ≡ false
    → ltb later old.expires_at ≡ true
    → let then_env : Env = record env { now = later } in
      let db' = commit (refresh_token env id token device new db).1 in
      let again : TokenReply × Database Tables =
        refresh_token then_env id' token device' new' db' in
      let revoked : Option DatabaseError × Database Tables =
        revoke_session then_env old.session_id db' in
      (again ≡ (token_reused, revoked.1))
      × (revoked.0 ≡ none
          → (get_session old.session_id again.1 ≡ none)
            × ((t : RefreshToken)
                → get_valid_refresh_token_by_hash then_env hash again.1 ≡ some t
                → t.session_id ≢ old.session_id))
refresh_token-reuse env id id' later token device device' new new' session old db hash valid done
      after alive =
    let then_env : Env = record env { now = later } in
    let db' = commit (refresh_token env id token device new db).1 in
    let found =
      refresh_token-replaces env id later token device new session old db valid done after alive in
    let revoked : Option DatabaseError × Database Tables =
      revoke_session then_env old.session_id db' in
    let again : refresh_token then_env id' token device' new' db' ≡ (token_reused, revoked.1) =
      refresh_token-replaced then_env id' token device' new' (env.sha256 new)
        (record old { replaced_by_hash = some (env.sha256 new) }) db' found refl in
    (again, λ h. rw (again) (revoke_session-closes then_env old.session_id hash db' h))
