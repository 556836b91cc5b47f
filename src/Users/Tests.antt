-- ===== src/Users/Tests.antt =====
-- Two registrations and a new password, with the password as its own hash.
use looprail_backend.Prelude.{ℕ, ◌≡◌, refl, true, none, some, List, [], ◌∷◌, str_eq, if◌then◌else◌}
use looprail_backend.Database
use looprail_backend.Action.{Result, ok, err}
use looprail_backend.Users.World
use looprail_backend.Users.World.{User, UserCreate, Failure, World, Env, find_by_id, put_user}
use looprail_backend.Users.Accounts.{
  authenticate_user, cache_user, create_user, new_user, reset_password, update_transaction_pin,
  verify_transaction_pin, fresh_credentials,
}
use looprail_backend.Users.Register.{IsUnique, create_user-authenticates}
use looprail_backend.Users.Password.{authenticate_user-reset_password}

abbrev rows_id : List User → ℕ
rows_id [] = 1
rows_id (_ ∷ _) = 2

abbrev env : Env
env = record {
  accepts = λ rows. true;
  new_id = rows_id;
  temporary_identity = λ rows. "temp_idty";
  cached_user = λ id calls. none;
  deletes = λ id calls. true;
  hash_password = λ password. password;
  verify_password = str_eq;
}

abbrev ada_form : UserCreate
ada_form = record {
  email = "ada@x.org";
  password = "Secret#1";
  first_name = "Ada";
  last_name = "L";
  username = "ada_l";
  country_code = "NG";
  gender = "female";
  phone_number = "+2348000000001";
}

abbrev bob_form : UserCreate
bob_form = record ada_form {
  email = "bob@x.org";
  password = "Secret#2";
  username = "bob_b";
  phone_number = "+2348000000002";
}

abbrev ada : User
ada = new_user env ada_form []

abbrev bob : User
bob = new_user env bob_form (ada ∷ [])

abbrev with_ada : World
with_ada = record { database = record { saved = ada ∷ []; current = ada ∷ [] }; cache = [] }

create_user-authenticates_example :
    let w' = (create_user env bob_form with_ada).1 in
    IsUnique w'.database.current
    × (((authenticate_user env "bob@x.org" "Secret#2" w').0 ≡ ok bob)
        × ((authenticate_user env "ada@x.org" "Secret#1" w').0
            ≡ (authenticate_user env "ada@x.org" "Secret#1" with_ada).0))
unfolding World.find_by create_user looprail_backend.Users.Accounts.get_user_by_phone_number
    looprail_backend.Users.Accounts.create_row looprail_backend.Users.Accounts.flush Database.save
create_user-authenticates_example =
    create_user-authenticates env bob_form "ada@x.org" "Secret#1" with_ada bob
      (record { emails = (refl, tt); usernames = (refl, tt); phones = (refl, tt) }) refl refl refl

abbrev reset_ada : User
reset_ada = record ada { credentials = some (fresh_credentials "Changed#3") }

authenticate_user-reset_password_example :
    let w' = (reset_password env "ada@x.org" "Changed#3" with_ada).1 in
    ((authenticate_user env "ada@x.org" "Changed#3" w').0 ≡ ok reset_ada)
    × ((authenticate_user env "ada@x.org" "Secret#1" w').0
        ≡ (if str_eq "Secret#1" "Changed#3" then ok reset_ada else err World.invalid_credentials))
unfolding reset_password World.find_by looprail_backend.Users.Accounts.save_user
    looprail_backend.Action.◌>>=◌ looprail_backend.Users.Accounts.flush Database.save
authenticate_user-reset_password_example =
    authenticate_user-reset_password env "ada@x.org" "Changed#3" "Secret#1" with_ada reset_ada refl
      refl
