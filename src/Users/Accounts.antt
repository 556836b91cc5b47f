-- ===== src/Users/Accounts.antt =====
-- The methods of `UserUseCase`, with `create_user` and the queries of the repository. The sensitive parts of a user are
-- not cached.
use looprail_backend.Prelude.{
  ℕ, Bool, true, false, none, some, String, List, [], ◌∷◌, ◌++◌, if◌then◌else◌,
}
use looprail_backend.Database
use looprail_backend.Database.{Database}
use looprail_backend.Action
use looprail_backend.Action.{Result, ok, err, ◌>>=◌, ◌>>◌}
use looprail_backend.Users.World.{
  Credentials, User, UserCreate, Failure, not_found, invalid_credentials, phone_taken, email_taken,
  username_taken, not_saved, raised, World, Env, stored, deleted, find_by, find_by_id, email_of,
  username_of, phone_of, put_user,
}

abbrev pub UserAction : Type 0 → Type 0
UserAction A = Action.Action World Failure A

-- `authenticate_user`
unfoldable pub authenticate_user : Env → String → String → UserAction User
authenticate_user env email password w = elim (find_by email_of (some email) w.database.current) [
  | none ↦ (err invalid_credentials, w)
  | some u ↦ elim u.credentials [
    | none ↦ (err invalid_credentials, w)
    | some c ↦
        if env.verify_password password c.password_hash
        then (ok u, w)
        else (err invalid_credentials, w)
  ]
]

-- `_cache_user`: without the credentials and the pin
abbrev pub cache_user : User → World → World
cache_user u w = record w {
  cache = stored (record u { credentials = none; pin_hash = none }) ∷ w.cache;
}

-- `cache.delete`
unfoldable pub forget_user : Env → ℕ → UserAction (Unit {0})
forget_user env id w =
    if env.deletes id w.cache
    then (ok tt, record w { cache = deleted id ∷ w.cache })
    else (err raised, w)

-- the rows of a flush, and the user that it is about
unfoldable pub flush : Env → User → List User → UserAction User
flush env u rows w =
    let (e, db) = Database.save env.accepts rows w.database in
    let w' : World = record w { database = db } in
    elim e [ none ↦ (ok u, w') | some _ ↦ (err not_saved, w') ]

-- `save`
unfoldable pub save_user : Env → User → UserAction User
save_user env u = do
  saved ← (λ w. flush env u (put_user u w.database.current) w)
  λ w. (ok saved, cache_user saved w)

-- `get_user_by_id`; a user that is not found is cached all the same, which raises
unfoldable pub get_user_by_id : Env → ℕ → Bool → UserAction User
get_user_by_id env id from_cache w =
    let found : Result Failure User × World = elim (find_by_id id w.database.current) [
      | none ↦ (err raised, w)
      | some u ↦ (ok u, cache_user u w)
    ] in
    if from_cache
    then elim (env.cached_user id w.cache) [ none ↦ found | some u ↦ (ok u, w) ]
    else found

-- `get_user_by_phone_number`
unfoldable pub get_user_by_phone_number : String → UserAction User
get_user_by_phone_number phone w = elim (find_by phone_of (some phone) w.database.current) [
  | none ↦ (err not_found, w)
  | some profile ↦ elim (find_by_id profile.id w.database.current) [
    | none ↦ (err raised, w)
    | some u ↦ (ok u, w)
  ]
]

-- `UserRepository.create_user`
unfoldable pub create_row : Env → User → UserAction User
create_row env u w = elim (find_by email_of (some u.email) w.database.current) [
  | some _ ↦ (err email_taken, w)
  | none ↦ elim (find_by username_of (some u.username) w.database.current) [
    | some _ ↦ (err username_taken, w)
    | none ↦ flush env u (w.database.current ++ (u ∷ [])) w
  ]
]

abbrev pub fresh_credentials : String → Credentials
fresh_credentials hash = record { password_hash = hash; failed_attempts = 0; locked_until = none }

abbrev pub new_user : Env → UserCreate → List User → User
new_user env form rows = record {
  id = env.new_id rows;
  email = form.email;
  username = form.username;
  first_name = some form.first_name;
  last_name = some form.last_name;
  gender = form.gender;
  ledger_identity_id = env.temporary_identity rows;
  onboarding_responses = [];
  has_completed_onboarding = false;
  credentials = some (fresh_credentials (env.hash_password form.password));
  pin_hash = none;
  profile = some (record { phone_number = form.phone_number; country = form.country_code });
}

-- `create_user`
unfoldable pub create_user : Env → UserCreate → UserAction User
create_user env form w =
    let created = create_row env (new_user env form w.database.current) w in
    elim (get_user_by_phone_number form.phone_number w).0 [
      | ok _ ↦ (err phone_taken, w)
      | err not_found ↦ created
      | err e ↦ (err e, w)
    ]

-- `finalize_onboarding`
unfoldable pub finalize_onboarding : Env → ℕ → List String → UserAction User
finalize_onboarding env id responses = do
  u ← get_user_by_id env id false
  save_user env (record u { onboarding_responses = responses; has_completed_onboarding = true })

-- `update_transaction_pin`
unfoldable pub update_transaction_pin : Env → ℕ → String → UserAction User
update_transaction_pin env id pin = do
  u ← get_user_by_id env id false
  forget_user env id
  save_user env (record u { pin_hash = some (env.hash_password pin) })

-- `verify_transaction_pin`
unfoldable pub verify_transaction_pin : Env → ℕ → String → World → Bool
verify_transaction_pin env id pin w = elim (find_by_id id w.database.current) [
  | none ↦ false
  | some u ↦ elim u.pin_hash [ none ↦ false | some hash ↦ env.verify_password pin hash ]
]

-- `reset_password`
unfoldable pub reset_password : Env → String → String → UserAction User
reset_password env email password w = elim (find_by email_of (some email) w.database.current) [
  | none ↦ (err not_found, w)
  | some u ↦
      save_user env
        (record u { credentials = some (fresh_credentials (env.hash_password password)) }) w
]
