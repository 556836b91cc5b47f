-- ===== src/Otp/Tests.antt =====
-- The theorems on one-time passwords at a server in memory, with a toy hash.
use Prim.Native.String.{◌++◌}
use looprail_backend.Prelude.{
  ◌≤◌, ◌≡◌, ◌↔◌, Bool, true, false, none, some, String, List, [], ◌∷◌, arith, str_eq, str_eq_iff,
  refl,
}
use looprail_backend.Redis.{RedisServer, Transactions}
use looprail_backend.Redis.Memory.{memory, memory_transactions, put}
use looprail_backend.Otp
use looprail_backend.Otp.{
  Otp, OtpKey, token_key, email_key, OtpValue, otp_value, token_value, password_reset,
  onboarding_email_verification, active, used, generate_otp,
}
use looprail_backend.Otp.Verify.{
  verified, invalid_otp_token, verify_otp, count_attempt, compare_code,
}
use looprail_backend.Otp.Verify.Attempts.{Attempt, attempts_from, attempts_bounded}
use looprail_backend.Otp.Verify.Outcomes.{verified_sound, verified_once, verify-generate}

abbrev key_beq : OtpKey → OtpKey → Bool
key_beq (token_key a) (token_key b) = str_eq a b
key_beq (email_key a) (email_key b) = str_eq a b
key_beq (token_key a) (email_key b) = false
key_beq (email_key a) (token_key b) = false

key_beq_iff : (a b : OtpKey) → (key_beq a b ≡ true) ↔ (a ≡ b)
key_beq_iff (token_key a) (token_key b) = ground (arith, str_eq_iff a b)
key_beq_iff (email_key a) (email_key b) = ground (arith, str_eq_iff a b)
key_beq_iff (token_key a) (email_key b) = ground arith
key_beq_iff (email_key a) (token_key b) = ground arith

abbrev server : RedisServer OtpKey OtpValue
server = memory key_beq key_beq_iff

abbrev transactions : Transactions server
transactions = memory_transactions key_beq key_beq_iff

abbrev toy_hmac : String → String → String
toy_hmac secret code = secret ++ code

abbrev stored : Otp
stored = record {
  user_email = "ada@x.io";
  created_at = 1000;
  expires_at = 1300;
  status = active;
  code_hash = "s123456";
  otp_type = password_reset;
  attempts = 1;
}

abbrev store : server.Store
store =
    put key_beq (token_key "tk") (some (otp_value stored))
      (put key_beq (email_key "ada@x.io") (some (token_value "tk")) (λ _. none))

abbrev tries : List Attempt
tries = ("000000", 1010) ∷ ("111111", 1011) ∷ ("222222", 1012) ∷ ("123456", 1013) ∷ []

attempts_bounded_example :
    (attempts_from server transactions toy_hmac "s" "tk" password_reset tries store).0 ≤ 2
attempts_bounded_example =
    attempts_bounded server transactions toy_hmac "s" "tk" password_reset tries stored store refl

abbrev accepted : Otp
accepted = record stored { status = used; attempts = 2 }

verify_accepts_now :
    (verify_otp server transactions toy_hmac "s" "tk" password_reset "123456" 1200 store).0
    ≡ verified accepted
unfolding verify_otp Otp.get_otp Otp.is_expired count_attempt Otp.update_otp compare_code
    Otp.delete_otp
verify_accepts_now = refl

verified_sound_example :
    (otp : Otp) × (server.get (token_key "tk") store ≡ some (otp_value otp))
    × (otp.otp_type ≡ password_reset)
    × (1200 ≤ otp.expires_at)
    × (otp.attempts ≤ 2)
    × (toy_hmac "s" "123456" ≡ otp.code_hash)
verified_sound_example =
    verified_sound server transactions toy_hmac "s" "tk" password_reset accepted "123456" 1200 store
      verify_accepts_now

verified_once_example :
    let s' =
      (verify_otp server transactions toy_hmac "s" "tk" password_reset "123456" 1200 store).1 in
    verify_otp server transactions toy_hmac "s" "tk" password_reset "123456" 1201 s'
    ≡ (invalid_otp_token, s')
verified_once_example =
    verified_once server transactions toy_hmac "s" "tk" password_reset accepted "123456" 1200 store
      password_reset "123456" 1201 verify_accepts_now refl

verify-generate_example :
    let s' =
      (generate_otp server transactions toy_hmac "s" "ada@x.io" onboarding_email_verification "42"
        "new" 5 store).1 in
    (verify_otp server transactions toy_hmac "s" "new" onboarding_email_verification "42" 300 s').0
    ≡ verified (record {
      user_email = "ada@x.io";
      created_at = 5;
      expires_at = 305;
      status = used;
      code_hash = "s42";
      otp_type = onboarding_email_verification;
      attempts = 1;
    })
unfolding generate_otp
verify-generate_example =
    verify-generate server transactions toy_hmac "s" "new" "ada@x.io" "42"
      onboarding_email_verification 5 300 store refl (omega arith) (λ _ _ _ _. refl, λ _ _. refl)
