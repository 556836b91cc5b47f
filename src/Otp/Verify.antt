-- ===== src/Otp/Verify.antt =====
-- `verify_otp_dep` of api/dependencies/auth_deps.py: one attempt at a one-time password.
pub mod Attempts
pub mod Outcomes
use looprail_backend.Prelude.{
  ℕ, ◌+◌, Bool, true, false, not, Option, none, some, String, ltb, if◌then◌else◌,
}
use looprail_backend.Redis.{RedisServer, Transactions}
use looprail_backend.Otp
use looprail_backend.Otp.{Otp, OtpKey, OtpValue, OtpError, OtpType, OtpStatus}

-- `OTPError` and its message, where "Invalid OTP" is raised at two places, and
-- `InternaleServerError`, which is raised at two places too.
pub data Reply : Type 0 where
  verified : Otp → Reply
  invalid_otp_token otp_expired : Reply
  attempts_exceeded wrong_code : Reply
  update_failed delete_failed : Reply
  -- another exception passes through; the flag says whether the code was compared before
  raised : Bool → Reply

-- The code was compared with the stored hash.
abbrev pub is_compared : Reply → Bool
is_compared (verified _) = true
is_compared wrong_code = true
is_compared delete_failed = true
is_compared invalid_otp_token = false
is_compared otp_expired = false
is_compared attempts_exceeded = false
is_compared update_failed = false
is_compared (raised compared) = compared

-- What follows a call that returned the error `e`, or raised.
abbrev pub settle : Bool → Option OtpError → Reply → Reply
settle compared (some OtpError.undecodable) reply = raised compared
settle compared (some (OtpError.redis _)) reply = reply
settle compared (some OtpError.invalid_otp) reply = reply
settle compared (some OtpError.could_not_update) reply = reply
settle compared none reply = reply

module _ (r : RedisServer OtpKey OtpValue) (t : Transactions r) (hmac : String → String → String)
    (secret : String) where
  -- from the comparison on
  unfoldable pub compare_code : Otp → String → r.Store → Reply × r.Store
  unfolding Otp.verify_code
  compare_code otp code s =
      let (e, s') = Otp.delete_otp r t hmac secret otp.user_email s in
      if Otp.verify_code r t hmac secret code otp.code_hash
      then (elim e as (λ _. Reply × r.Store) [
        | none ↦ (verified (record otp { status = OtpStatus.used }), s')
        | some why ↦ (settle true (some why) delete_failed, s')
      ])
      else (wrong_code, s)

  -- from `otp.attempts += 1` on
  unfoldable pub count_attempt : Otp → String → String → r.Store → Reply × r.Store
  count_attempt otp token code s =
      let attempts = otp.attempts + 1 in
      let (deleted, emptied) = Otp.delete_otp r t hmac secret otp.user_email s in
      let tried : Otp = record otp { attempts = attempts } in
      let (e, s') = Otp.update_otp r t hmac secret token tried s in
      if ltb 3 attempts
      then (settle false deleted attempts_exceeded, emptied)
      else (elim e as (λ _. Reply × r.Store) [
        | none ↦ compare_code tried code s'
        | some _ ↦ (update_failed, s')
      ])

  -- `verify_otp_dep`, for the code and type of the request and the clock `now`
  unfoldable pub verify_otp : String → OtpType → String → ℕ → r.Store → Reply × r.Store
  verify_otp token type code now s =
      let (found, e) = Otp.get_otp r t hmac secret token type s in
      elim found as (λ _. Reply × r.Store) [
        | none ↦ (settle false e invalid_otp_token, s)
        | some otp ↦
            let (deleted, s') = Otp.delete_otp r t hmac secret otp.user_email s in
            if Otp.is_expired otp now
            then (settle false deleted otp_expired, s')
            else count_attempt otp token code s
      ]
