-- ===== src/Session/Limit.antt =====
-- A user has at most three active sessions.
use looprail_backend.Prelude.{
  ℕ, suc, ◌+◌, ◌≤◌, ◌<◌, ◌≡◌, ◌≢◌, ap, refl, Bool, true, false, ◌&&◌, ◌||◌, none, some, String,
  List, [], ◌∷◌, ◌++◌, ◌==◌, length, arith, Option-cases, inl, inr, ◌⊎◌,
}
use looprail_backend.Database.{Database, save}
use looprail_backend.Session.{
  Session, RefreshToken, Tables, Env, is_none, find_session, put_session, get_session,
  update_session, revoke_row, revoke_tokens, revoke_session, active_in, get_user_sessions,
  insert_session, by_last_seen, get_active_sessions_ordered,
}
use looprail_backend.Session.Revocation.{find_session_id}
use looprail_backend.Session.Token.{create_refresh_token, make_room, create_session}

-- an active session of the user with that id
abbrev pub has_active : ℕ → ℕ → List Session → Bool
has_active user id [] = false
has_active user id (s ∷ rows) =
    (s.user_id == user && is_none s.revoked_at && s.id == id) || has_active user id rows

length-insert_session :
    (s : Session) (rows : List Session) → length (insert_session s rows) ≡ suc (length rows)
length-insert_session s [] = refl
length-insert_session s (r ∷ rows) = ground (arith, length-insert_session s rows)

length-by_last_seen : (rows : List Session) → length (by_last_seen rows) ≡ length rows
length-by_last_seen [] = refl
length-by_last_seen (s ∷ rows) =
    ground (arith, length-by_last_seen rows, length-insert_session s (by_last_seen rows))

-- what is in the list, by its ids
abbrev pub has_id : ℕ → List Session → Bool
has_id id [] = false
has_id id (s ∷ rows) = s.id == id || has_id id rows

has_id-insert_session :
    (id : ℕ) (s : Session) (rows : List Session)
    → has_id id (insert_session s rows) ≡ (s.id == id || has_id id rows)
has_id-insert_session id s [] = refl
has_id-insert_session id s (r ∷ rows) = ground (arith, has_id-insert_session id s rows)

has_id-by_last_seen :
    (id : ℕ) (rows : List Session) → has_id id (by_last_seen rows) ≡ has_id id rows
has_id-by_last_seen id [] = refl
has_id-by_last_seen id (s ∷ rows) =
    ground (arith, has_id-by_last_seen id rows, has_id-insert_session id s (by_last_seen rows))

pub has_id-active_in :
    (user id : ℕ) (rows : List Session) → has_id id (active_in user rows) ≡ has_active user id rows
has_id-active_in user id [] = refl
has_id-active_in user id (s ∷ rows) = ground (arith, has_id-active_in user id rows)

find_session-has_active :
    (user id : ℕ) (rows : List Session)
    → has_active user id rows ≡ true
    → find_session id rows ≢ none
find_session-has_active user id [] h e = ground arith
find_session-has_active user id (s ∷ rows) h e =
    ground (arith, λ (k : has_active user id rows ≡ true). find_session-has_active user id rows k)

active_in-put_session :
    (user now : ℕ) (s : Session) (rows : List Session)
    → s.revoked_at ≡ some now
    → length (active_in user (put_session s rows)) ≤ length (active_in user rows)
active_in-put_session user now s [] h = ground arith
active_in-put_session user now s (r ∷ rows) h =
    ground (arith, active_in-put_session user now s rows h)

active_in-put_session_less :
    (user now : ℕ) (s : Session) (rows : List Session)
    → s.revoked_at ≡ some now
    → has_active user s.id rows ≡ true
    → length (active_in user (put_session s rows)) < length (active_in user rows)
active_in-put_session_less user now s [] h k = ground arith
active_in-put_session_less user now s (r ∷ rows) h k = ground (
  arith,
  active_in-put_session user now s rows h,
  λ (m : has_active user s.id rows ≡ true). active_in-put_session_less user now s rows h m,
)

active_in-append :
    (user : ℕ) (rows more : List Session)
    → length (active_in user (rows ++ more))
      ≡ length (active_in user rows) + length (active_in user more)
active_in-append user [] more = ground arith
active_in-append user (r ∷ rows) more = ground (arith, active_in-append user rows more)

revoke_session-less :
    (env : Env) (user id : ℕ) (db : Database Tables)
    → ((t : Tables) → env.accepts t ≡ true)
    → has_active user id db.current.sessions ≡ true
    → length (get_user_sessions user (revoke_session env id db).1)
      < length (get_user_sessions user db)
unfolding revoke_session revoke_row revoke_tokens get_session get_user_sessions update_session save
revoke_session-less env user id db ok h =
    let rows = db.current.sessions in
    elim (Option-cases (find_session id rows)) [
      | inl missing ↦ absurd (find_session-has_active user id rows h missing)
      | inr (s, found) ↦
          let row : Session = record s { revoked_at = some env.now } in
          let same = find_session_id id rows s found in
          let h' : has_active user s.id rows ≡ true = rw (same) h in
          let less = active_in-put_session_less user env.now row rows refl h' in
          let taken = ok (record { sessions = put_session row rows; tokens = db.current.tokens }) in
          ground arith
    ]

list-cases :
    (rows : List Session)
    → (rows ≡ []) ⊎ ((s : Session) × (rest : List Session) × (rows ≡ s ∷ rest))
list-cases [] = inl refl
list-cases (s ∷ rest) = inr (s, rest, refl)

-- the first of the ordered sessions is an active one of the user
has_active-first :
    (user : ℕ) (s : Session) (rest : List Session) (db : Database Tables)
    → get_active_sessions_ordered user db ≡ s ∷ rest
    → has_active user s.id db.current.sessions ≡ true
unfolding get_active_sessions_ordered get_user_sessions
has_active-first user s rest db e =
    let rows = db.current.sessions in
    ground (
      arith,
      has_id-by_last_seen s.id (active_in user rows),
      has_id-active_in user s.id rows,
      ap (has_id s.id) e,
    )

make_room-length :
    (env : Env) (user : ℕ) (db : Database Tables)
    → ((t : Tables) → env.accepts t ≡ true)
    → length (get_user_sessions user db) ≤ 3
    → length (get_user_sessions user (make_room env user db)) ≤ 2
unfolding make_room get_active_sessions_ordered
make_room-length env user db ok h = elim (list-cases (get_active_sessions_ordered user db)) [
  | inl empty ↦ ground (arith, length-by_last_seen (get_user_sessions user db))
  | inr (s, rest, e) ↦
      let active = has_active-first user s rest db e in
      ground (
        arith,
        length-by_last_seen (get_user_sessions user db),
        revoke_session-less env user s.id db ok active,
      )
]

-- While the database takes the writes, a user who has at most three active sessions has at most three after
-- another one has started, and the start goes through.
pub create_session-limit :
    (env : Env) (session_id token_id user : ℕ) (device token : String) (db : Database Tables)
    → ((t : Tables) → env.accepts t ≡ true)
    → length (get_user_sessions user db) ≤ 3
    → (length
          (get_user_sessions user (create_session env session_id token_id user device token db).1)
        ≤ 3)
      × ((create_session env session_id token_id user device token db).0 ≢ none)
unfolding create_session create_refresh_token save get_user_sessions
create_session-limit env session_id token_id user device token db ok h =
    let room = make_room env user db in
    let row : Session = record {
      id = session_id;
      user_id = user;
      device_id = device;
      revoked_at = none;
      last_seen_at = env.now;
      passcode_hash = none;
    } in
    let two = make_room-length env user db ok h in
    let grown = active_in-append user room.current.sessions (row ∷ []) in
    let token_row : RefreshToken = record {
      id = token_id;
      session_id = session_id;
      token_hash = env.sha256 token;
      replaced_by_hash = none;
      revoked_at = none;
      expires_at = env.now + env.refresh_token_expires_in;
    } in
    let rows = room.current.sessions ++ (row ∷ []) in
    let first = ok (record { sessions = rows; tokens = room.current.tokens }) in
    let second =
      ok (record { sessions = rows; tokens = room.current.tokens ++ (token_row ∷ []) }) in
    (ground arith, λ e. ground arith)
