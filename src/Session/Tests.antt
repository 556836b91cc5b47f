-- ===== src/Session/Tests.antt =====
-- Sessions of one user, at a database that takes every write.
use looprail_backend.Prelude.{
  ◌≡◌, ◌≢◌, ◌≤◌, ℕ, refl, true, false, Option, none, some, [], ◌∷◌, length, str_eq, arith,
}
use looprail_backend.Session
use looprail_backend.Database
use looprail_backend.Database.{Database, DatabaseError, commit}
use looprail_backend.Session.{
  Session, RefreshToken, Tables, Env, get_session, revoke_session, get_user_sessions,
  revoke_all_user_sessions, set_passcode, verify_passcode,
}
use looprail_backend.Session.Token
use looprail_backend.Session.Token.{
  get_valid_refresh_token_by_hash, create_session, TokenReply, token_reused, refreshed,
  refresh_token,
}
use looprail_backend.Session.Revocation.{revoke_session-closes}
use looprail_backend.Session.Reuse.{refresh_token-reuse}
use looprail_backend.Session.Limit.{has_active, create_session-limit}
use looprail_backend.Session.Logout.{revoke_all-closes}
use looprail_backend.Session.Passcode.{verify-set_passcode}

abbrev env : Env
env = record {
  accepts = λ _. true;
  now = 100;
  sha256 = λ s. s;
  hash_password = λ s. s;
  verify_password = λ s h. str_eq s h;
  refresh_token_expires_in = 50;
}

abbrev session_of : ℕ → ℕ → Session
session_of id seen = record {
  id = id;
  user_id = 7;
  device_id = "phone";
  revoked_at = none;
  last_seen_at = seen;
  passcode_hash = none;
}

abbrev old : RefreshToken
old = record {
  id = 11;
  session_id = 1;
  token_hash = "first";
  replaced_by_hash = none;
  revoked_at = none;
  expires_at = 120;
}

abbrev tables : Tables
tables = record {
  sessions = session_of 1 90 ∷ session_of 2 80 ∷ session_of 3 95 ∷ [];
  tokens = old ∷ [];
}

abbrev db : Database Tables
db = record { saved = tables; current = tables }

revoke_session-closes_example :
    (get_session 1 (revoke_session env 1 db).1 ≡ none)
    × ((t : RefreshToken)
        → get_valid_refresh_token_by_hash env "first" (revoke_session env 1 db).1 ≡ some t
        → t.session_id ≢ 1)
unfolding revoke_session Session.revoke_row Session.update_session Database.save get_session
revoke_session-closes_example = revoke_session-closes env 1 "first" db refl

abbrev later_env : Env
later_env = record env { now = 110 }

refresh_token-reuse_example :
    let db' = commit (refresh_token env 12 "first" "phone" "second" db).1 in
    let again : TokenReply × Database Tables =
      refresh_token later_env 13 "first" "thief" "third" db' in
    let revoked : Option DatabaseError × Database Tables = revoke_session later_env 1 db' in
    (again ≡ (token_reused, revoked.1))
    × (revoked.0 ≡ none
        → (get_session 1 again.1 ≡ none)
          × ((t : RefreshToken)
              → get_valid_refresh_token_by_hash later_env "second" again.1 ≡ some t
              → t.session_id ≢ 1))
unfolding refresh_token get_valid_refresh_token_by_hash get_session Token.rotate_refresh_token
    Token.create_refresh_token Database.save
refresh_token-reuse_example =
    refresh_token-reuse env 12 13 110 "first" "phone" "thief" "second" "third" 1 old db "second"
      refl refl refl refl

three : length (get_user_sessions 7 db) ≤ 3
unfolding get_user_sessions
three = omega arith

create_session-limit_example :
    (length (get_user_sessions 7 (create_session env 4 14 7 "tablet" "fourth" db).1) ≤ 3)
    × ((create_session env 4 14 7 "tablet" "fourth" db).0 ≢ none)
unfolding get_user_sessions
create_session-limit_example =
    create_session-limit env 4 14 7 "tablet" "fourth" db (λ _. refl) three

revoke_all-closes_example :
    (get_user_sessions 7 (revoke_all_user_sessions env 7 db).1 ≡ [])
    × ((t : RefreshToken)
        → get_valid_refresh_token_by_hash env "first" (revoke_all_user_sessions env 7 db).1 ≡ some t
        → has_active 7 t.session_id db.current.sessions ≡ false)
unfolding revoke_all_user_sessions Session.revoke_listed get_user_sessions Session.update_session
    Database.save
revoke_all-closes_example = revoke_all-closes env 7 "first" db refl

verify-set_passcode_example :
    let db' = (set_passcode env 1 "123456" db).1 in
    (verify_passcode env 1 "123456" db' ≡ (true, none))
    × (verify_passcode env 1 "654321" db' ≡ (env.verify_password "654321" "123456", none))
unfolding set_passcode get_session Session.update_session Database.save
verify-set_passcode_example = verify-set_passcode env 1 "123456" "654321" db refl refl refl
