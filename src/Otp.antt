-- ===== src/Otp.antt =====
-- usecases/otp_usecases.py, models/otp_model.py and `verify_otp_dep` of
-- api/dependencies/auth_deps.py: one-time passwords in Redis.
use looprail_backend.Prelude.{
  ℕ, ◌+◌, Bool, true, false, not, Option, none, some, String, List, [], ◌∷◌, str_eq, ltb,
  if◌then◌else◌,
}
pub mod Verify
mod Tests
use looprail_backend.Redis
use looprail_backend.Redis.{RedisServer, Transactions, Command, set_key, delete_key, RedisError}

pub data OtpStatus : Type 0 where
  active used expired attempt_exceeded : OtpStatus

pub data OtpType : Type 0 where
  onboarding_email_verification password_reset : OtpType

abbrev pub same_type : OtpType → OtpType → Bool
same_type onboarding_email_verification onboarding_email_verification = true
same_type password_reset password_reset = true
same_type _ _ = false

pub record Otp : Type 0 where
  pub user_email : String
  pub created_at : ℕ
  pub expires_at : ℕ
  pub status : OtpStatus
  pub code_hash : String
  pub otp_type : OtpType
  pub attempts : ℕ

-- `Otp.is_expired`, at the clock `now`
unfoldable pub is_expired : Otp → ℕ → Bool
is_expired otp now = ltb otp.expires_at now

-- f"otp:token:{token}" and f"otp:email:{user_email}"
pub data OtpKey : Type 0 where
  token_key email_key : String → OtpKey

-- An email key holds a token, a token key an `Otp`.
pub data OtpValue : Type 0 where
  otp_value : Otp → OtpValue
  token_value : String → OtpValue

pub data OtpError : Type 0 where
  redis : RedisError → OtpError
  -- error("Invald Otp") and error("Could not update OTP")
  invalid_otp could_not_update : OtpError
  -- the stored text does not decode to what is read: the client raises
  undecodable : OtpError

abbrev pub as_otp : OtpValue → Option Otp × Option OtpError
as_otp (otp_value o) = (some o, none)
as_otp (token_value _) = (none, some undecodable)

abbrev pub as_token : OtpValue → Option String × Option OtpError
as_token (otp_value _) = (none, some undecodable)
as_token (token_value t) = (some t, none)

-- `hmac secret text` stands for HMAC-SHA256 in hexadecimal, `secret` for the configuration's.
module _ (r : RedisServer OtpKey OtpValue) (t : Transactions r) (hmac : String → String → String)
    (secret : String) where
  -- `hash_otp` of utils/otp_utils.py
  unfoldable pub hash_otp : String → String
  hash_otp code = hmac secret code

  -- `OtpUseCase.verify_code`
  unfoldable pub verify_code : String → String → Bool
  unfolding hash_otp
  verify_code code otp_hash = str_eq (hash_otp code) otp_hash

  -- `OtpUseCase.generate_otp`, with the generated code and token and the clock as arguments
  unfoldable pub generate_otp :
      String
      → OtpType
      → String
      → String
      → ℕ
      → r.Store
      → (Option (String × String) × Option RedisError) × r.Store
  unfolding hash_otp Redis.commit
  generate_otp user_email type code token now s =
      let otp : Otp = record {
        user_email = user_email;
        created_at = now;
        expires_at = now + 300;
        status = active;
        code_hash = hash_otp code;
        otp_type = type;
        attempts = 0;
      } in
      let commands =
        set_key (token_key token) (otp_value otp) Redis.default_ttl
        ∷ set_key (email_key user_email) (token_value token) Redis.default_ttl
        ∷ [] in
      let (e, s') = Redis.commit r t commands s in
      elim e [ none ↦ ((some (code, token), none), s') | some why ↦ ((none, some why), s') ]

  -- `OtpUseCase.update_otp`
  unfoldable pub update_otp : String → Otp → r.Store → Option OtpError × r.Store
  unfolding Redis.update
  update_otp token otp s =
      let (e, s') = Redis.update r (token_key token) (otp_value otp) s in
      elim e [ none ↦ (none, s') | some _ ↦ (some could_not_update, s') ]

  -- `OtpUseCase.get_user_token`
  unfoldable pub get_user_token : String → r.Store → Option String × Option OtpError
  unfolding Redis.fetch
  get_user_token user_email s =
      let (found, _) = Redis.fetch r (email_key user_email) s in
      elim found [ none ↦ (none, some (redis RedisError.not_found)) | some v ↦ as_token v ]

  -- the test of the type in `get_otp`
  abbrev of_type : OtpType → Option Otp × Option OtpError → Option Otp × Option OtpError
  of_type type (some otp, e) =
      if same_type otp.otp_type type then (some otp, none) else (none, some invalid_otp)
  of_type type (none, e) = (none, e)

  -- `OtpUseCase.get_otp`
  unfoldable pub get_otp : String → OtpType → r.Store → Option Otp × Option OtpError
  unfolding Redis.fetch
  get_otp token type s =
      let (found, _) = Redis.fetch r (token_key token) s in
      elim found [
        | none ↦ (none, some (redis RedisError.not_found))
        | some v ↦ of_type type (as_otp v)
      ]

  -- the transaction of `delete_otp`
  unfoldable pub delete_keys : String → String → r.Store → Option OtpError × r.Store
  unfolding Redis.commit
  delete_keys user_email token s =
      let (e, s') =
        Redis.commit r t (delete_key (token_key token) ∷ delete_key (email_key user_email) ∷ [])
          s in
      elim e [ none ↦ (none, s') | some why ↦ (some (redis why), s') ]

  -- `OtpUseCase.delete_otp`
  unfoldable pub delete_otp : String → r.Store → Option OtpError × r.Store
  unfolding get_user_token delete_keys
  delete_otp user_email s =
      let (found, e) = get_user_token user_email s in
      elim found [ none ↦ (e, s) | some token ↦ delete_keys user_email token s ]
