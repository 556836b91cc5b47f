-- ===== src/Users/Password.antt =====
-- Passwords and pins, from their setting to their verification.
use looprail_backend.Prelude.{
  ℕ, ◌≡◌, ◌∙◌, sym, ap, refl, true, false, none, some, String, List, [], ◌∷◌, str_eq, arith,
  if◌then◌else◌, Option-cases, Bool-cases, inl, inr,
}
use looprail_backend.Action.{Result, ok, err, ◌>>◌, bind_returns}
use looprail_backend.Users.World
use looprail_backend.Users.World.{
  Credentials, User, Failure, World, Env, same, find_by, find_by_id, email_of, put_user,
}
use looprail_backend.Users.Accounts.{
  authenticate_user, flush, cache_user, save_user, get_user_by_id, forget_user, fresh_credentials,
  reset_password, update_transaction_pin, verify_transaction_pin,
}
use looprail_backend.Users.Register.{flush-ok, authenticate_user-found}

find_by-email :
    (email : String) (rows : List User) (u : User)
    → find_by email_of (some email) rows ≡ some u
    → str_eq u.email email ≡ true
unfolding find_by
find_by-email email [] u h = ground arith
find_by-email email (r ∷ rows) u h = ground (arith, find_by-email email rows u)

-- a row that keeps its id and its mail is found by its mail after it was written
find_by-put_user :
    (email : String) (rows : List User) (old u : User)
    → find_by email_of (some email) rows ≡ some old
    → u.id ≡ old.id
    → str_eq u.email email ≡ true
    → find_by email_of (some email) (put_user u rows) ≡ some u
unfolding find_by
find_by-put_user email [] old u h same_id mail = ground arith
find_by-put_user email (r ∷ rows) old u h same_id mail = ground (
  arith,
  λ (k : find_by email_of (some email) rows ≡ some old).
      find_by-put_user email rows old u k same_id mail,
)

save_user-ok :
    (env : Env) (u v : User) (w : World)
    → (save_user env u w).0 ≡ ok v
    → (v ≡ u) × ((save_user env u w).1.database.current ≡ put_user u w.database.current)
unfolding save_user
save_user-ok env u v w h =
    let rows = put_user u w.database.current in
    let (saved, (flushed, run)) =
      bind_returns (λ x. flush env u (put_user u x.database.current) x)
        (λ x y. (ok x, cache_user x y)) w v h in
    let done = flush-ok env u saved rows w flushed in
    let returned : ◌≡◌ {A = Result Failure User} (ok saved) (ok v) = ap (λ r. r.0) (sym run) ∙ h in
    let same_user : saved ≡ v = ground arith in
    (sym same_user ∙ done.0, ap (λ r. r.1.database.current) run ∙ done.1)

reset_password-run :
    (env : Env) (email password : String) (w : World) (old : User)
    → find_by email_of (some email) w.database.current ≡ some old
    → reset_password env email password w
      ≡ save_user env
          (record old { credentials = some (fresh_credentials (env.hash_password password)) })
          w
unfolding reset_password
reset_password-run env email password w old found = ground arith

reset_password-missing :
    (env : Env) (email password : String) (w : World) (u : User)
    → find_by email_of (some email) w.database.current ≡ none
    → ¬ ((reset_password env email password w).0 ≡ ok u)
unfolding reset_password
reset_password-missing env email password w u missing h = ground arith

-- Once the password of a mail's user was reset, the user is authenticated by the mail with the new password, if the
-- verification takes a password for its own hash, as Argon2 does. With any other password, the authentication returns
-- the user exactly if the verification takes that password for the hash of the new one, and refuses it otherwise.
pub authenticate_user-reset_password :
    (env : Env) (email password other : String) (w : World) (u : User)
    → env.verify_password password (env.hash_password password) ≡ true
    → (reset_password env email password w).0 ≡ ok u
    → let w' = (reset_password env email password w).1 in
      ((authenticate_user env email password w').0 ≡ ok u)
      × ((authenticate_user env email other w').0 ≡ (
          if env.verify_password other (env.hash_password password)
          then ok u
          else err World.invalid_credentials))
authenticate_user-reset_password env email password other w u verified h =
    let rows = w.database.current in
    elim (Option-cases (find_by email_of (some email) rows)) [
      | inl missing ↦ elim (reset_password-missing env email password w u missing h) [ ]
      | inr (old, found) ↦
          let hash = env.hash_password password in
          let row : User = record old { credentials = some (fresh_credentials hash) } in
          let run = reset_password-run env email password w old found in
          let done = save_user-ok env row u w (ap (λ r. r.0) (sym run) ∙ h) in
          let written = ap (λ r. r.1.database.current) run ∙ done.1 in
          let there =
            find_by-put_user email rows old row found refl (find_by-email email rows old found) in
          let seen =
            ap (find_by email_of (some email)) written ∙ there ∙ ap (λ x. some x) (sym done.0) in
          let verdict = λ (p : String).
            authenticate_user-found env email p (reset_password env email password w).1 u
              (fresh_credentials hash) seen (ap (λ x. x.credentials) done.0) in
          (verdict password ∙ rw verified refl, verdict other)
    ]

find_by_id-put_user :
    (rows : List User) (id : ℕ) (old u : User)
    → find_by_id id rows ≡ some old
    → u.id ≡ old.id
    → find_by_id id (put_user u rows) ≡ some u
unfolding find_by_id
find_by_id-put_user [] id old u h same_id = ground arith
find_by_id-put_user (r ∷ rows) id old u h same_id =
    ground
      (arith, λ (k : find_by_id id rows ≡ some old). find_by_id-put_user rows id old u k same_id)

get_user_by_id-ok :
    (env : Env) (id : ℕ) (u : User) (w : World)
    → (get_user_by_id env id false w).0 ≡ ok u
    → (find_by_id id w.database.current ≡ some u)
      × ((get_user_by_id env id false w).1.database ≡ w.database)
unfolding get_user_by_id
get_user_by_id-ok env id u w h = ground (arith, Option-cases (find_by_id id w.database.current))

forget_user-database :
    (env : Env) (id : ℕ) (w : World) → (forget_user env id w).1.database ≡ w.database
unfolding forget_user
forget_user-database env id w = ground (arith, Bool-cases (env.deletes id w.cache))

-- the row that an update of the pin writes
update_transaction_pin-writes :
    (env : Env) (id : ℕ) (pin : String) (w : World) (u : User)
    → (update_transaction_pin env id pin w).0 ≡ ok u
    → (old : User) × ((find_by_id id w.database.current ≡ some old)
        × ((u ≡ record old { pin_hash = some (env.hash_password pin) })
            × ((update_transaction_pin env id pin w).1.database.current
                ≡ put_user u w.database.current)))
unfolding update_transaction_pin
update_transaction_pin-writes env id pin w u h =
    let write = λ (old : User).
      forget_user env id
      >> save_user env (record old { pin_hash = some (env.hash_password pin) }) in
    let (old, (got, run)) = bind_returns (get_user_by_id env id false) write w u h in
    let w1 = (get_user_by_id env id false w).1 in
    let read = get_user_by_id-ok env id old w got in
    let wrote : (write old w1).0 ≡ ok u = ap (λ r. r.0) (sym run) ∙ h in
    let row : User = record old { pin_hash = some (env.hash_password pin) } in
    let (t, (forgot, run')) =
      bind_returns (forget_user env id) (λ _. save_user env row) w1 u wrote in
    let w2 = (forget_user env id w1).1 in
    let done = save_user-ok env row u w2 (ap (λ r. r.0) (sym run') ∙ wrote) in
    let books = forget_user-database env id w1 ∙ read.1 in
    let rows' =
      ap (λ x. put_user row x.current) books
      ∙ ap (λ x. put_user x w.database.current) (sym done.0) in
    (old, (read.0, (done.0, ap (λ r. r.1.database.current) (run ∙ run') ∙ done.1 ∙ rows')))

verify_transaction_pin-found :
    (env : Env) (id : ℕ) (pin hash : String) (u : User) (w : World)
    → find_by_id id w.database.current ≡ some u
    → u.pin_hash ≡ some hash
    → verify_transaction_pin env id pin w ≡ env.verify_password pin hash
unfolding verify_transaction_pin
verify_transaction_pin-found env id pin hash u w found has = ground arith

-- Once the pin of a user was updated, the user's row differs in the pin alone, and the verification of a pin gives what
-- Argon2 gives for the hash of the new one.
pub verify-update_transaction_pin :
    (env : Env) (id : ℕ) (pin other : String) (w : World) (u : User)
    → (update_transaction_pin env id pin w).0 ≡ ok u
    → let w' = (update_transaction_pin env id pin w).1 in
      ((old : User) × ((find_by_id id w.database.current ≡ some old)
          × (find_by_id id w'.database.current
              ≡ some (record old { pin_hash = some (env.hash_password pin) }))))
      × (verify_transaction_pin env id other w' ≡ env.verify_password other (env.hash_password pin))
verify-update_transaction_pin env id pin other w u h =
    let (old, (found, (is_row, written))) = update_transaction_pin-writes env id pin w u h in
    let seen =
      ap (find_by_id id) written
      ∙ find_by_id-put_user w.database.current id old u found (ap (λ x. x.id) is_row)
      ∙ ap (λ x. some x) is_row in
    ((old, (found, seen)), verify_transaction_pin-found env id other _ _ _ seen refl)
