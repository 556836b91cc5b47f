-- ===== src/Users/World.antt =====
-- The rows of users, the searches among them, and what the methods on users change.
use looprail_backend.Prelude.{
  ℕ, Bool, false, Option, none, some, String, List, [], ◌∷◌, ◌==◌, str_eq, if◌then◌else◌,
}
use looprail_backend.Database.{Database}

-- `UserCredentials`
pub record Credentials : Type 0 where
  pub password_hash : String
  pub failed_attempts : ℕ
  pub locked_until : Option ℕ

-- the columns of `UserProfile` that a new user has
pub record Profile : Type 0 where
  pub phone_number : String
  pub country : String

pub record User : Type 0 where
  pub id : ℕ
  pub email : String
  pub username : String
  pub first_name : Option String
  pub last_name : Option String
  pub gender : String
  pub ledger_identity_id : String
  pub onboarding_responses : List String
  pub has_completed_onboarding : Bool
  pub credentials : Option Credentials
  pub pin_hash : Option String
  pub profile : Option Profile

-- `UserCreate`
pub record UserCreate : Type 0 where
  pub email : String
  pub password : String
  pub first_name : String
  pub last_name : String
  pub username : String
  pub country_code : String
  pub gender : String
  pub phone_number : String

pub data Failure : Type 0 where
  not_found invalid_credentials phone_taken email_taken username_taken not_saved raised : Failure

-- a call of the cache of users
pub data CacheCall : Type 0 where
  stored : User → CacheCall
  deleted : ℕ → CacheCall

pub record World : Type 0 where
  pub database : Database (List User)
  -- the latest first
  pub cache : List CacheCall

-- What the methods are given: the database's verdict on rows, the id and the temporary identity of a new row, the user
-- that is restored from the cache, and Argon2.
pub record Env : Type 0 where
  pub accepts : List User → Bool
  pub new_id : List User → ℕ
  pub temporary_identity : List User → String
  pub cached_user : ℕ → List CacheCall → Option User
  -- a deletion from the cache goes through, or raises
  pub deletes : ℕ → List CacheCall → Bool
  pub hash_password : String → String
  pub verify_password : String → String → Bool

abbrev pub same : Option String → Option String → Bool
same none _ = false
same (some a) none = false
same (some a) (some b) = str_eq a b

-- the first row with this value in a column: the query with `first()`
unfoldable pub find_by : (User → Option String) → Option String → List User → Option User
find_by column value [] = none
find_by column value (u ∷ us) =
    let rest = find_by column value us in if same (column u) value then some u else rest

unfoldable pub find_by_id : ℕ → List User → Option User
find_by_id id [] = none
find_by_id id (u ∷ us) = let rest = find_by_id id us in if u.id == id then some u else rest

abbrev pub email_of : User → Option String
email_of u = some u.email

abbrev pub username_of : User → Option String
username_of u = some u.username

abbrev pub phone_of : User → Option String
phone_of u = elim u.profile [ none ↦ none | some p ↦ some p.phone_number ]

-- the row with this id replaced
abbrev pub put_user : User → List User → List User
put_user u [] = []
put_user u (r ∷ rows) = let rest = put_user u rows in if r.id == u.id then u ∷ rest else r ∷ rest
