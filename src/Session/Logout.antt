-- ===== src/Session/Logout.antt =====
-- The end of all sessions of a user, as "/logout-all" asks for it.
use looprail_backend.Prelude.{
  ℕ, ◌≡◌, ◌≢◌, ◌∙◌, refl, Bool, true, false, ◌&&◌, ◌||◌, not, none, some, String, List, [], ◌∷◌,
  ◌==◌, arith, Option-cases, Bool-cases, inl, inr,
}
use looprail_backend.Database.{Database, save}
use looprail_backend.Session.{
  Tables, Session, RefreshToken, Env, is_none, put_session, update_session, revoke_tokens_in,
  revoke_tokens, active_in, get_user_sessions, revoke_rows, revoke_tokens_of, revoke_listed,
  revoke_all_user_sessions,
}
use looprail_backend.Session.Token.{first_valid, get_valid_refresh_token_by_hash}
use looprail_backend.Session.Limit.{has_active, has_id, has_id-active_in}

has_active-put_session :
    (user id now : ℕ) (s : Session) (rows : List Session)
    → s.revoked_at ≡ some now
    → has_active user id (put_session s rows) ≡ true
    → (has_active user id rows ≡ true) × ((s.id == id) ≡ false)
has_active-put_session user id now s [] h k = ground arith
has_active-put_session user id now s (r ∷ rows) h k = ground (
  arith,
  λ (m : has_active user id (put_session s rows) ≡ true).
      has_active-put_session user id now s rows h m,
)

-- the rows that are still active were active before, and are none of those to revoke
has_active-revoke_rows :
    (env : Env) (user id : ℕ) (xs : List Session) (db : Database Tables)
    → (revoke_rows env xs db).0 ≡ none
    → has_active user id (revoke_rows env xs db).1.current.sessions ≡ true
    → (has_active user id db.current.sessions ≡ true) × (has_id id xs ≡ false)
unfolding update_session save
has_active-revoke_rows env user id [] db h k = ground arith
has_active-revoke_rows env user id (s ∷ xs) db h k =
    let row : Session = record s { revoked_at = some env.now } in
    let (e, db') = update_session env row db in
    let step = has_active-put_session user id env.now row db.current.sessions refl in
    elim (Option-cases e) [
      | inr refused ↦ ground arith
      | inl taken ↦
          let (before, others) =
            has_active-revoke_rows env user id xs db' (ground arith) (ground arith) in
          let (known, other) = step (ground arith) in ground arith
    ]

active_in_empty :
    (user : ℕ) (rows : List Session)
    → ((id : ℕ) → has_active user id rows ≡ false)
    → active_in user rows ≡ []
active_in_empty user [] h = refl
active_in_empty user (s ∷ rows) h =
    let rest = active_in_empty user rows (λ id. let k = h id in ground arith) in
    let k = h s.id in ground arith

-- all tokens of the session are revoked
abbrev pub is_closed : ℕ → List RefreshToken → Bool
is_closed id [] = true
is_closed id (t ∷ ts) = (not (t.session_id == id) || not (is_none t.revoked_at)) && is_closed id ts

is_closed-revoke_self :
    (now id : ℕ) (ts : List RefreshToken) → is_closed id (revoke_tokens_in now id ts) ≡ true
is_closed-revoke_self now id [] = refl
is_closed-revoke_self now id (t ∷ ts) = ground (arith, is_closed-revoke_self now id ts)

is_closed-revoke_other :
    (now id id' : ℕ) (ts : List RefreshToken)
    → is_closed id ts ≡ true
    → is_closed id (revoke_tokens_in now id' ts) ≡ true
is_closed-revoke_other now id id' [] h = refl
is_closed-revoke_other now id id' (t ∷ ts) h =
    ground (arith, λ (k : is_closed id ts ≡ true). is_closed-revoke_other now id id' ts k)

is_closed-kept :
    (env : Env) (id : ℕ) (xs : List Session) (db : Database Tables)
    → is_closed id db.current.tokens ≡ true
    → is_closed id (revoke_tokens_of env xs db).current.tokens ≡ true
unfolding revoke_tokens
is_closed-kept env id [] db h = h
is_closed-kept env id (s ∷ xs) db h =
    is_closed-kept env id xs (revoke_tokens env s.id db)
      (is_closed-revoke_other env.now id s.id db.current.tokens h)

is_closed-revoke_tokens_of :
    (env : Env) (id : ℕ) (xs : List Session) (db : Database Tables)
    → has_id id xs ≡ true
    → is_closed id (revoke_tokens_of env xs db).current.tokens ≡ true
unfolding revoke_tokens
is_closed-revoke_tokens_of env id [] db h = ground arith
is_closed-revoke_tokens_of env id (s ∷ xs) db h =
    let db' = revoke_tokens env s.id db in
    elim (Bool-cases (has_id id xs)) [
      | inl k ↦ is_closed-revoke_tokens_of env id xs db' k
      | inr k ↦
          let same : s.id ≡ id = ground arith in
          is_closed-kept env id xs db'
            (rw (same) (is_closed-revoke_self env.now id db.current.tokens))
    ]

first_valid-is_closed :
    (now id : ℕ) (hash : String) (ts : List RefreshToken) (t : RefreshToken)
    → first_valid now hash ts ≡ some t
    → is_closed id ts ≡ true
    → t.session_id ≢ id
first_valid-is_closed now id hash [] t h k = ground arith
first_valid-is_closed now id hash (r ∷ ts) t h k = ground (
  arith,
  λ (m : first_valid now hash ts ≡ some t) (n : is_closed id ts ≡ true).
      first_valid-is_closed now id hash ts t m n,
)

sessions-revoke_tokens_of :
    (env : Env) (xs : List Session) (db : Database Tables)
    → (revoke_tokens_of env xs db).current.sessions ≡ db.current.sessions
unfolding revoke_tokens
sessions-revoke_tokens_of env [] db = refl
sessions-revoke_tokens_of env (s ∷ xs) db =
    sessions-revoke_tokens_of env xs (revoke_tokens env s.id db)

-- Once all sessions of a user were revoked without an error, the user has no active session, and no refresh
-- token that is still valid belongs to a session that was active.
pub revoke_all-closes :
    (env : Env) (user : ℕ) (hash : String) (db : Database Tables)
    → (revoke_all_user_sessions env user db).0 ≡ none
    → (get_user_sessions user (revoke_all_user_sessions env user db).1 ≡ [])
      × ((t : RefreshToken)
          → get_valid_refresh_token_by_hash env hash (revoke_all_user_sessions env user db).1
            ≡ some t
          → has_active user t.session_id db.current.sessions ≡ false)
unfolding revoke_all_user_sessions revoke_listed get_user_sessions get_valid_refresh_token_by_hash
revoke_all-closes env user hash db h =
    let xs = active_in user db.current.sessions in
    let (e, db') = revoke_rows env xs db in
    elim (Option-cases e) [
      | inr refused ↦ ground arith
      | inl taken ↦
          let end = revoke_tokens_of env xs db' in
          let none_left : (id : ℕ) → has_active user id db'.current.sessions ≡ false = λ id.
            elim (Bool-cases (has_active user id db'.current.sessions)) [
              | inr k ↦ k
              | inl k ↦
                  let (was, not_listed) = has_active-revoke_rows env user id xs db taken k in
                  ground (arith, has_id-active_in user id db.current.sessions)
            ] in
          let empty = active_in_empty user db'.current.sessions none_left in
          let same = sessions-revoke_tokens_of env xs db' in
          let result : revoke_all_user_sessions env user db ≡ (none, end) = ground arith in
          rw (result) (
            rw (same) empty,
            λ t k. elim (Bool-cases (has_active user t.session_id db.current.sessions)) [
              | inr m ↦ m
              | inl m ↦
                  let listed = has_id-active_in user t.session_id db.current.sessions ∙ m in
                  let closed = is_closed-revoke_tokens_of env t.session_id xs db' listed in
                  absurd (
                    first_valid-is_closed env.now t.session_id hash end.current.tokens t k closed
                      refl)
            ],
          )
    ]
