-- ===== src/Users/Register.antt =====
-- New users: their keys, and their authentication.
use looprail_backend.Prelude.{
  ◌≡◌, ◌∙◌, sym, ap, refl, true, false, Option, none, some, String, List, [], ◌∷◌, ◌++◌, str_eq,
  str_eq_iff, arith, if◌then◌else◌, Option-cases, Bool-cases, inl, inr,
}
use looprail_backend.Database
use looprail_backend.Action.{Result-cases, ok, err}
use looprail_backend.Users.World
use looprail_backend.Users.World.{
  Credentials, User, UserCreate, Failure, World, Env, same, find_by, email_of, username_of,
  phone_of,
}
use looprail_backend.Users.Accounts.{
  authenticate_user, fresh_credentials, flush, get_user_by_phone_number, create_row, new_user,
  create_user,
}

str_eq_comm : (a b : String) → str_eq a b ≡ str_eq b a
str_eq_comm a b = ground (arith, str_eq_iff a b, str_eq_iff b a)

same_comm : (x y : Option String) → same x y ≡ same y x
same_comm none none = refl
same_comm none (some b) = refl
same_comm (some a) none = refl
same_comm (some a) (some b) = str_eq_comm a b

module _ (column : User → Option String) where
  -- no two rows have the same value in the column
  abbrev pub Distinct : List User → Type 0
  Distinct [] = Unit {0}
  Distinct (u ∷ us) = (find_by column (column u) us ≡ none) × Distinct us

  pub find_by-append :
      (value : Option String) (rows : List User) (u : User)
      → find_by column value (rows ++ (u ∷ [])) ≡ elim (find_by column value rows) [
        | none ↦ if same (column u) value then some u else none
        | some r ↦ some r
      ]
  unfolding find_by
  find_by-append value [] u = refl
  find_by-append value (r ∷ rows) u = ground (arith, find_by-append value rows u)

  pub Distinct-append :
      (rows : List User) (u : User)
      → Distinct rows
      → find_by column (column u) rows ≡ none
      → Distinct (rows ++ (u ∷ []))
  unfolding find_by
  Distinct-append [] u h free = (refl, tt)
  Distinct-append (r ∷ rows) u (first, rest) free = (
    ground (arith, find_by-append (column r) rows u, same_comm (column u) (column r)),
    Distinct-append rows u rest (ground arith),
  )

-- no two users share their mail, their name or their phone number
pub record IsUnique (rows : List User) : Type 0 where
  pub emails : Distinct email_of rows
  pub usernames : Distinct username_of rows
  pub phones : Distinct phone_of rows

-- a registration that went through found no row with one of the keys, and put the new row behind the others
abbrev Registered : Env → UserCreate → World → User → World → Type 0
Registered env form w u w' =
    let rows = w.database.current in
    (u ≡ new_user env form rows)
    × ((find_by email_of (some form.email) rows ≡ none)
        × ((find_by username_of (some form.username) rows ≡ none)
            × ((find_by phone_of (some form.phone_number) rows ≡ none)
                × (w'.database.current ≡ rows ++ (new_user env form rows ∷ [])))))

pub flush-ok :
    (env : Env) (u v : User) (rows : List User) (w : World)
    → (flush env u rows w).0 ≡ ok v
    → (v ≡ u) × ((flush env u rows w).1.database.current ≡ rows)
unfolding flush Database.save
flush-ok env u v rows w h = elim (Bool-cases (env.accepts rows)) [
  | inl e ↦ (ground arith, ground arith)
  | inr e ↦ ground arith
]

create_row-ok :
    (env : Env) (u v : User) (w : World)
    → (create_row env u w).0 ≡ ok v
    → (v ≡ u)
      × ((find_by email_of (some u.email) w.database.current ≡ none)
          × ((find_by username_of (some u.username) w.database.current ≡ none)
              × ((create_row env u w).1.database.current ≡ w.database.current ++ (u ∷ []))))
unfolding create_row
create_row-ok env u v w h =
    let rows = w.database.current in
    elim (Option-cases (find_by email_of (some u.email) rows)) [
      | inr (x, e) ↦ ground arith
      | inl e ↦ elim (Option-cases (find_by username_of (some u.username) rows)) [
        | inr (y, f) ↦ ground arith
        | inl f ↦
            let run : create_row env u w ≡ flush env u (rows ++ (u ∷ [])) w = ground arith in
            let flushed = flush-ok env u v (rows ++ (u ∷ [])) w (ap (λ r. r.0) (sym run) ∙ h) in
            (flushed.0, (e, (f, ap (λ r. r.1.database.current) run ∙ flushed.1)))
      ]
    ]

get_user_by_phone_number-missing :
    (phone : String) (w : World)
    → (get_user_by_phone_number phone w).0 ≡ err Failure.not_found
    → find_by phone_of (some phone) w.database.current ≡ none
unfolding get_user_by_phone_number
get_user_by_phone_number-missing phone w h =
    ground (arith, Option-cases (find_by phone_of (some phone) w.database.current))

create_user-run :
    (env : Env) (form : UserCreate) (w : World) (u : User)
    → (create_user env form w).0 ≡ ok u
    → ((get_user_by_phone_number form.phone_number w).0 ≡ err Failure.not_found)
      × (create_user env form w ≡ create_row env (new_user env form w.database.current) w)
unfolding create_user
create_user-run env form w u h =
    elim (Result-cases (get_user_by_phone_number form.phone_number w).0) [
      | inl (a, e) ↦ ground arith
      | inr (World.not_found, e) ↦ (e, ground arith)
      | inr (World.invalid_credentials, e) ↦ ground arith
      | inr (World.phone_taken, e) ↦ ground arith
      | inr (World.email_taken, e) ↦ ground arith
      | inr (World.username_taken, e) ↦ ground arith
      | inr (World.not_saved, e) ↦ ground arith
      | inr (World.raised, e) ↦ ground arith
    ]

create_user-Registered :
    (env : Env) (form : UserCreate) (w : World) (u : User)
    → (create_user env form w).0 ≡ ok u
    → Registered env form w u (create_user env form w).1
create_user-Registered env form w u h =
    let rows = w.database.current in
    let run = create_user-run env form w u h in
    let row = create_row-ok env (new_user env form rows) u w (ap (λ r. r.0) (sym run.1) ∙ h) in
    (
      row.0,
      (
        row.1.0,
        (
          row.1.1.0,
          (
            get_user_by_phone_number-missing form.phone_number w run.0,
            ap (λ r. r.1.database.current) run.1 ∙ row.1.1.1,
          ),
        ),
      ),
    )

-- the verdict on a password, where a row with credentials is found
pub authenticate_user-found :
    (env : Env) (email password : String) (w : World) (u : User) (c : Credentials)
    → find_by email_of (some email) w.database.current ≡ some u
    → u.credentials ≡ some c
    → (authenticate_user env email password w).0 ≡ (
        if env.verify_password password c.password_hash
        then ok u
        else err World.invalid_credentials)
unfolding authenticate_user
authenticate_user-found env email password w u c found has =
    ground (arith, Bool-cases (env.verify_password password c.password_hash))

-- who is authenticated depends on the row that is found
authenticate_user-same_row :
    (env : Env) (email password : String) (w w' : World)
    → find_by email_of (some email) w.database.current
      ≡ find_by email_of (some email) w'.database.current
    → (authenticate_user env email password w).0 ≡ (authenticate_user env email password w').0
unfolding authenticate_user
authenticate_user-same_row env email password w w' h =
    ground (arith, Option-cases (find_by email_of (some email) w.database.current))

-- Among users with no two of the same mail, name or phone number, a registration that goes through keeps it so. The new
-- user is authenticated by the mail and the password of the registration, if the verification takes a password for its
-- own hash, as Argon2 does, and for every other mail an authentication gives what it gave before.
pub create_user-authenticates :
    (env : Env) (form : UserCreate) (other password : String) (w : World) (u : User)
    → IsUnique w.database.current
    → env.verify_password form.password (env.hash_password form.password) ≡ true
    → str_eq form.email other ≡ false
    → (create_user env form w).0 ≡ ok u
    → let w' = (create_user env form w).1 in
      IsUnique w'.database.current
      × (((authenticate_user env form.email form.password w').0 ≡ ok u)
          × ((authenticate_user env other password w').0
              ≡ (authenticate_user env other password w).0))
create_user-authenticates env form other password w u unique verified ne h =
    let rows = w.database.current in
    let row = new_user env form rows in
    let (same_user, (email, (username, (phone, rows')))) = create_user-Registered env form w u h in
    let w' = (create_user env form w).1 in
    let mine : find_by email_of (some form.email) (rows ++ (row ∷ [])) ≡ some row = ground (
      arith,
      find_by-append email_of (some form.email) rows row,
      str_eq_iff form.email form.email,
    ) in
    let others : find_by email_of (some other) (rows ++ (row ∷ []))
        ≡ find_by email_of (some other) rows =
      ground (
        arith,
        find_by-append email_of (some other) rows row,
        Option-cases (find_by email_of (some other) rows),
      ) in
    (
      record {
        emails = rw rows' (Distinct-append email_of rows row unique.emails email);
        usernames = rw rows' (Distinct-append username_of rows row unique.usernames username);
        phones = rw rows' (Distinct-append phone_of rows row unique.phones phone);
      },
      (
        rw
            (authenticate_user-found env form.email form.password w' u
              (fresh_credentials (env.hash_password form.password))
              (ap (find_by email_of (some form.email)) rows'
                ∙ mine
                ∙ ap (λ x. some x) (sym same_user))
              (ap (λ x. x.credentials) same_user))
            (rw verified refl),
        authenticate_user-same_row env other password w' w
            (ap (find_by email_of (some other)) rows' ∙ others),
      ),
    )
