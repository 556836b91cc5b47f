-- ===== src/Session/Token.antt =====
-- Refresh tokens: their creation and rotation, the start of a session, and the handler of "/token".
use looprail_backend.Prelude.{
  ℕ, ◌+◌, Bool, ◌&&◌, Option, none, some, String, List, [], ◌∷◌, ◌++◌, ltb, leb, ◌==◌, length,
  str_eq, if◌then◌else◌,
}
use looprail_backend.Database.{Database, DatabaseError, save}
use looprail_backend.Session.{
  Tables, Session, RefreshToken, Env, is_none, get_session, revoke_session,
  get_active_sessions_ordered,
}

-- `RefreshTokenRepository.create_refresh_token`, with the new row's id
unfoldable pub create_refresh_token :
    Env → ℕ → ℕ → String → Database Tables → Option DatabaseError × Database Tables
create_refresh_token env id session_id token db =
    let row : RefreshToken = record {
      id = id;
      session_id = session_id;
      token_hash = env.sha256 token;
      replaced_by_hash = none;
      revoked_at = none;
      expires_at = env.now + env.refresh_token_expires_in;
    } in
    save env.accepts
      (record { sessions = db.current.sessions; tokens = db.current.tokens ++ (row ∷ []) }) db

abbrev pub is_valid_with : ℕ → String → RefreshToken → Bool
is_valid_with now hash t = str_eq t.token_hash hash && is_none t.revoked_at && ltb now t.expires_at

abbrev pub first_valid : ℕ → String → List RefreshToken → Option RefreshToken
first_valid now hash [] = none
first_valid now hash (t ∷ ts) =
    let rest = first_valid now hash ts in if is_valid_with now hash t then some t else rest

-- `get_valid_refresh_token_by_hash`, which does not ask for a token that was not replaced
unfoldable pub get_valid_refresh_token_by_hash :
    Env → String → Database Tables → Option RefreshToken
get_valid_refresh_token_by_hash env hash db = first_valid env.now hash db.current.tokens

abbrev pub put_token : RefreshToken → List RefreshToken → List RefreshToken
put_token t [] = []
put_token t (r ∷ rows) = let rest = put_token t rows in if r.id == t.id then t ∷ rest else r ∷ rest

-- `mark_refresh_token_as_replaced`: the object is changed, and written with the next flush
unfoldable pub mark_refresh_token_as_replaced :
    RefreshToken → String → Database Tables → Database Tables
mark_refresh_token_as_replaced old hash db = record db {
  current = record {
    sessions = db.current.sessions;
    tokens = put_token (record old { replaced_by_hash = some hash }) db.current.tokens;
  };
}

-- `SessionUseCase.rotate_refresh_token`
unfoldable pub rotate_refresh_token :
    Env → ℕ → RefreshToken → String → Database Tables → Option DatabaseError × Database Tables
rotate_refresh_token env id old token db =
    create_refresh_token env id old.session_id token
      (mark_refresh_token_as_replaced old (env.sha256 token) db)

-- The oldest session goes where there are three or more, and an error of that is passed over.
unfoldable pub make_room : Env → ℕ → Database Tables → Database Tables
make_room env user db =
    let active = get_active_sessions_ordered user db in
    if leb 3 (length active)
    then (elim active [ [] ↦ db | oldest ∷ rest ↦ (revoke_session env oldest.id db).1 ])
    else db

abbrev pub started : {A : Type 0} → A → Option DatabaseError → Option A
started a none = some a
started a (some e) = none

-- `SessionUseCase.create_session`, with the ids of the session and its token, and the token
unfoldable pub create_session :
    Env → ℕ → ℕ → ℕ → String → String → Database Tables → Option Session × Database Tables
create_session env session_id token_id user device token db =
    let room = make_room env user db in
    let row : Session = record {
      id = session_id;
      user_id = user;
      device_id = device;
      revoked_at = none;
      last_seen_at = env.now;
      passcode_hash = none;
    } in
    let (e, db') =
      save env.accepts
        (record { sessions = room.current.sessions ++ (row ∷ []); tokens = room.current.tokens })
        room in
    elim e [
      | some e' ↦ (none, db')
      | none ↦
          let (f, db'') = create_refresh_token env token_id session_id token db' in
          (started row f, db'')
    ]

-- the answers of "/token"
pub data TokenReply : Type 0 where
  invalid_token token_reused session_not_found device_mismatch internal_error : TokenReply
  -- the new tokens, for a session
  refreshed : ℕ → String → TokenReply

abbrev pub rotated : ℕ → String → Option DatabaseError → TokenReply
rotated session token none = refreshed session token
rotated session token (some e) = internal_error

-- `refresh_token`, with the new token and its row's id
unfoldable pub refresh_token :
    Env → ℕ → String → String → String → Database Tables → TokenReply × Database Tables
refresh_token env id token device new_token db =
    elim (get_valid_refresh_token_by_hash env (env.sha256 token) db) [
      | none ↦ (invalid_token, db)
      | some old ↦ elim old.replaced_by_hash [
        | some h ↦ (token_reused, (revoke_session env old.session_id db).1)
        | none ↦ elim (get_session old.session_id db) [
          | none ↦ (session_not_found, db)
          | some s ↦
              if str_eq s.device_id device
              then (let (e, db') = rotate_refresh_token env id old new_token db in
                  (rotated s.id new_token e, db'))
              else (device_mismatch, (revoke_session env s.id db).1)
        ]
      ]
    ]
