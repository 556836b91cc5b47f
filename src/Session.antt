-- ===== src/Session.antt =====
-- Sessions and their refresh tokens: usecases/session_usecases.py over the repositories
-- infrastructure/repositories/session_repository.py and refresh_token_repository.py, and the handler of
-- "/token" in api/versions/v1/handlers/auth_router.py.
-- A UUID is a number, and a moment is a number of seconds.
pub mod Token
pub mod Revocation
pub mod Reuse
pub mod Limit
pub mod Logout
pub mod Passcode
mod Tests
use looprail_backend.Database.{Database, DatabaseError, not_found, save}
use looprail_backend.Prelude.{
  ℕ, ◌+◌, Bool, true, false, ◌&&◌, not, Option, none, some, String, List, [], ◌∷◌, ◌++◌, ltb, leb,
  ◌==◌, length, str_eq, if◌then◌else◌,
}

-- the columns that the code reads again
pub record Session : Type 0 where
  pub id : ℕ
  pub user_id : ℕ
  pub device_id : String
  pub revoked_at : Option ℕ
  pub last_seen_at : ℕ
  pub passcode_hash : Option String

pub record RefreshToken : Type 0 where
  pub id : ℕ
  pub session_id : ℕ
  pub token_hash : String
  pub replaced_by_hash : Option String
  pub revoked_at : Option ℕ
  pub expires_at : ℕ

pub record Tables : Type 0 where
  pub sessions : List Session
  pub tokens : List RefreshToken

-- the database, the clock, SHA-256 with its hex digits, Argon2 and the lifetime of a refresh token
pub record Env : Type 0 where
  -- whether a flush of what the request sees goes through
  pub accepts : Tables → Bool
  pub now : ℕ
  pub sha256 : String → String
  pub hash_password : String → String
  pub verify_password : String → String → Bool
  pub refresh_token_expires_in : ℕ

abbrev pub is_none : {A : Type 0} → Option A → Bool
is_none none = true
is_none (some _) = false

abbrev pub is_active_with : ℕ → Session → Bool
is_active_with id s = s.id == id && is_none s.revoked_at

abbrev pub find_session : ℕ → List Session → Option Session
find_session id [] = none
find_session id (s ∷ rest) =
    let found = find_session id rest in if is_active_with id s then some s else found

-- the object in place of the row with its id
abbrev pub put_session : Session → List Session → List Session
put_session s [] = []
put_session s (r ∷ rows) =
    let rest = put_session s rows in if r.id == s.id then s ∷ rest else r ∷ rest

-- `SessionRepository.get_session`
unfoldable pub get_session : ℕ → Database Tables → Option Session
get_session id db = find_session id db.current.sessions

-- `update`, of an object that was changed
unfoldable pub update_session :
    Env → Session → Database Tables → Option DatabaseError × Database Tables
update_session env s db =
    save env.accepts
      (record { sessions = put_session s db.current.sessions; tokens = db.current.tokens }) db

-- `SessionRepository.revoke_session`
unfoldable pub revoke_row : Env → ℕ → Database Tables → Option DatabaseError × Database Tables
revoke_row env id db = elim (get_session id db) [
  | none ↦ (some not_found, db)
  | some s ↦ update_session env (record s { revoked_at = some env.now }) db
]

abbrev pub revoke_tokens_in : ℕ → ℕ → List RefreshToken → List RefreshToken
revoke_tokens_in now id [] = []
revoke_tokens_in now id (t ∷ ts) =
    let rest = revoke_tokens_in now id ts in
    if t.session_id == id then record t { revoked_at = some now } ∷ rest else t ∷ rest

-- `revoke_refresh_tokens_for_session`
unfoldable pub revoke_tokens : Env → ℕ → Database Tables → Database Tables
revoke_tokens env id db = record db {
  current = record {
    sessions = db.current.sessions;
    tokens = revoke_tokens_in env.now id db.current.tokens;
  };
}

-- `SessionUseCase.revoke_session`
unfoldable pub revoke_session : Env → ℕ → Database Tables → Option DatabaseError × Database Tables
revoke_session env id db =
    let (e, db') = revoke_row env id db in
    elim e [ some e' ↦ (some e', db') | none ↦ (none, revoke_tokens env id db') ]

-- `find_all(user_id=..., revoked_at=None)`
abbrev pub active_in : ℕ → List Session → List Session
active_in user [] = []
active_in user (s ∷ rows) =
    let rest = active_in user rows in
    if s.user_id == user && is_none s.revoked_at then s ∷ rest else rest

unfoldable pub get_user_sessions : ℕ → Database Tables → List Session
get_user_sessions user db = active_in user db.current.sessions

-- `sorted` by `last_seen_at`, which keeps the order of equals
abbrev pub insert_session : Session → List Session → List Session
insert_session s [] = s ∷ []
insert_session s (r ∷ rows) =
    let rest = insert_session s rows in
    if leb s.last_seen_at r.last_seen_at then s ∷ r ∷ rows else r ∷ rest

abbrev pub by_last_seen : List Session → List Session
by_last_seen [] = []
by_last_seen (s ∷ rows) = insert_session s (by_last_seen rows)

unfoldable pub get_active_sessions_ordered : ℕ → Database Tables → List Session
get_active_sessions_ordered user db = by_last_seen (get_user_sessions user db)

abbrev pub revoke_rows :
    Env → List Session → Database Tables → Option DatabaseError × Database Tables
revoke_rows env [] db = (none, db)
revoke_rows env (s ∷ rows) db =
    let (e, db') = update_session env (record s { revoked_at = some env.now }) db in
    elim e [ some e' ↦ (some e', db') | none ↦ revoke_rows env rows db' ]

abbrev pub revoke_tokens_of : Env → List Session → Database Tables → Database Tables
revoke_tokens_of env [] db = db
revoke_tokens_of env (s ∷ rows) db = revoke_tokens_of env rows (revoke_tokens env s.id db)

-- the rows, and then the tokens of each
unfoldable pub revoke_listed :
    Env → List Session → Database Tables → Option DatabaseError × Database Tables
revoke_listed env sessions db =
    let (e, db') = revoke_rows env sessions db in
    elim e [ some e' ↦ (some e', db') | none ↦ (none, revoke_tokens_of env sessions db') ]

-- `SessionUseCase.revoke_all_user_sessions`. The repository reads the same sessions once more; without any
-- there is nothing to do, as `revoke_listed` does nothing then.
unfoldable pub revoke_all_user_sessions :
    Env → ℕ → Database Tables → Option DatabaseError × Database Tables
revoke_all_user_sessions env user db = revoke_listed env (get_user_sessions user db) db

-- `set_passcode`
unfoldable pub set_passcode :
    Env → ℕ → String → Database Tables → Option DatabaseError × Database Tables
set_passcode env id passcode db = elim (get_session id db) [
  | none ↦ (some not_found, db)
  | some s ↦ update_session env (record s { passcode_hash = some (env.hash_password passcode) }) db
]

-- `verify_passcode`: whether it is right, or an error
unfoldable pub verify_passcode : Env → ℕ → String → Database Tables → Bool × Option DatabaseError
verify_passcode env id passcode db = elim (get_session id db) [
  | none ↦ (false, some not_found)
  | some s ↦ elim s.passcode_hash [
    | none ↦ (false, none)
    | some h ↦ if str_eq h "" then (false, none) else (env.verify_password passcode h, none)
  ]
]
