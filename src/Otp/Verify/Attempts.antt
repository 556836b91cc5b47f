-- ===== src/Otp/Verify/Attempts.antt =====
-- How often a code is compared with one stored password, over any sequence of requests.
use looprail_backend.Prelude.{
  ℕ, ◌+◌, ◌-◌, ◌≤◌, ◌≡◌, ◌≢◌, Bool, true, false, Option, none, some, String, List, [], ◌∷◌, arith,
  str_eq, str_eq_iff, inl, inr, Bool-cases, Option-cases, if◌then◌else◌, refl, ap, sym, ◌∙◌,
}
use looprail_backend.Redis
use looprail_backend.Redis.{RedisServer, Transactions, Command, delete_key}
use looprail_backend.Otp
use looprail_backend.Otp.{
  Otp, OtpKey, token_key, email_key, OtpValue, otp_value, token_value, OtpType,
  onboarding_email_verification, password_reset, same_type,
}
use looprail_backend.Otp.Verify.{
  Reply, is_compared, settle, compare_code, count_attempt, verify_otp,
}

-- a request to verify: the code and the clock
abbrev pub Attempt : Type 0
Attempt = String × ℕ

abbrev pub budget : Option OtpValue → ℕ
budget none = 0
budget (some (otp_value o)) = 3 - o.attempts
budget (some (token_value _)) = 0

abbrev pub once : Bool → ℕ
once true = 1
once false = 0

pub same_type-eq : (a b : OtpType) → same_type a b ≡ true → a ≡ b
same_type-eq onboarding_email_verification onboarding_email_verification h = refl
same_type-eq onboarding_email_verification password_reset h = cc
same_type-eq password_reset onboarding_email_verification h = cc
same_type-eq password_reset password_reset h = refl

module _ (r : RedisServer OtpKey OtpValue) (t : Transactions r) (hmac : String → String → String)
    (secret token : String) where
  -- the comparisons that the stored password still allows
  abbrev pub remaining : r.Store → ℕ
  remaining s = budget (r.get (token_key token) s)

  get-delete_token :
      (other : String) (s : r.Store)
      → r.get (token_key token) (r.delete (token_key other) s).1
        ≡ (if str_eq token other then none else r.get (token_key token) s)
  get-delete_token other s = elim (Bool-cases (str_eq token other)) [
    | inl same ↦
        let e : token_key other ≡ token_key token =
          ap token_key (sym ((str_eq_iff token other).0 same)) in
        rw (same, e) (r.get-delete_self (token_key token) s)
    | inr differ ↦ rw differ (
        r.get-delete_ne (token_key token) (token_key other) s
          (λ e. ground (arith, str_eq_iff token other)))
  ]

  pub get-delete_keys :
      (user_email other : String) (s : r.Store)
      → r.get
          (token_key token)
          (Redis.run r (delete_key (token_key other) ∷ delete_key (email_key user_email) ∷ []) s)
        ≡ (if str_eq token other then none else r.get (token_key token) s)
  get-delete_keys user_email other s =
      r.get-delete_ne (token_key token) (email_key user_email) (r.delete (token_key other) s).1
        (λ e. cc)
      ∙ get-delete_token other s

  delete_keys-remaining :
      (user_email other : String) (s : r.Store)
      → remaining (Otp.delete_keys r t hmac secret user_email other s).1 ≤ remaining s
  unfolding Otp.delete_keys
  delete_keys-remaining user_email other s =
      let commands : List (Command OtpKey OtpValue) =
        delete_key (token_key other) ∷ delete_key (email_key user_email) ∷ [] in
      ground (
        arith,
        t.exec_done commands s,
        t.exec_failed commands s,
        get-delete_keys user_email other s,
      )

  delete_otp-remaining :
      (user_email : String) (s : r.Store)
      → remaining (Otp.delete_otp r t hmac secret user_email s).1 ≤ remaining s
  unfolding Otp.delete_otp
  delete_otp-remaining user_email s =
      elim (Option-cases (Otp.get_user_token r t hmac secret user_email s).0) [
        | inl missing ↦ rw (missing, Otp.delete_otp) (omega arith)
        | inr (other, e) ↦ rw (e, Otp.delete_otp) (delete_keys-remaining user_email other s)
      ]

  compare_code-remaining :
      (otp : Otp) (code : String) (s : r.Store)
      → remaining (compare_code r t hmac secret otp code s).1 ≤ remaining s
  unfolding compare_code
  compare_code-remaining otp code s = ground (arith, delete_otp-remaining otp.user_email s)

  update_otp-remaining :
      (otp : Otp) (s : r.Store)
      → (Otp.update_otp r t hmac secret token otp s).0 ≡ none
      → remaining (Otp.update_otp r t hmac secret token otp s).1 ≡ 3 - otp.attempts
  unfolding Otp.update_otp
  update_otp-remaining otp s h =
      ground (arith, r.get-set_self (token_key token) (otp_value otp) Redis.default_ttl s)

  update_otp-refused :
      (otp : Otp) (s : r.Store)
      → (Otp.update_otp r t hmac secret token otp s).0 ≢ none
      → (Otp.update_otp r t hmac secret token otp s).1 ≡ s
  unfolding Otp.update_otp
  update_otp-refused otp s h =
      ground (arith, r.set_refused (token_key token) (otp_value otp) Redis.default_ttl s)

  settle_uncompared :
      (e : Option Otp.OtpError) (reply : Reply)
      → is_compared reply ≡ false
      → is_compared (settle false e reply) ≡ false
  settle_uncompared e reply h = ground arith

  once_le_one : (b : Bool) → once b ≤ 1
  once_le_one b = ground arith

  count_attempt-remaining :
      (otp : Otp) (code : String) (s : r.Store)
      → r.get (token_key token) s ≡ some (otp_value otp)
      → let (reply, s') = count_attempt r t hmac secret otp token code s in
        once (is_compared reply) + remaining s' ≤ remaining s
  unfolding count_attempt
  count_attempt-remaining otp code s h =
      let tried : Otp = record otp { attempts = otp.attempts + 1 } in
      let updated = Otp.update_otp r t hmac secret token tried s in
      ground (
        arith,
        delete_otp-remaining otp.user_email s,
        update_otp-remaining tried s,
        update_otp-refused tried s,
        compare_code-remaining tried code updated.1,
        once_le_one (is_compared (compare_code r t hmac secret tried code updated.1).0),
        settle_uncompared (Otp.delete_otp r t hmac secret otp.user_email s).0
            Reply.attempts_exceeded,
      )

  pub get_otp-stored :
      (type : OtpType) (otp : Otp) (s : r.Store)
      → (Otp.get_otp r t hmac secret token type s).0 ≡ some otp
      → (r.get (token_key token) s ≡ some (otp_value otp)) × (otp.otp_type ≡ type)
  unfolding Otp.get_otp
  get_otp-stored type otp s h = ground (arith, same_type-eq otp.otp_type type)

  verify_otp-remaining :
      (type : OtpType) (code : String) (now : ℕ) (s : r.Store)
      → let (reply, s') = verify_otp r t hmac secret token type code now s in
        once (is_compared reply) + remaining s' ≤ remaining s
  unfolding verify_otp
  verify_otp-remaining type code now s =
      elim (Option-cases (Otp.get_otp r t hmac secret token type s).0) [
        | inl missing ↦ ground (
          arith,
          settle_uncompared (Otp.get_otp r t hmac secret token type s).1 Reply.invalid_otp_token,
        )
        | inr (otp, found) ↦ ground (
          arith,
          get_otp-stored type otp s found,
          delete_otp-remaining otp.user_email s,
          count_attempt-remaining otp code s,
          settle_uncompared (Otp.delete_otp r t hmac secret otp.user_email s).0 Reply.otp_expired,
        )
      ]

  -- every attempt in turn, and how many of them compared the code
  abbrev pub attempts_from : OtpType → List Attempt → r.Store → ℕ × r.Store
  attempts_from type [] s = (0, s)
  attempts_from type ((code, now) ∷ rest) s =
      let (reply, s') = verify_otp r t hmac secret token type code now s in
      let (n, s'') = attempts_from type rest s' in (once (is_compared reply) + n, s'')

  attempts-remaining :
      (type : OtpType) (attempts : List Attempt) (s : r.Store)
      → (attempts_from type attempts s).0 ≤ remaining s
  attempts-remaining type [] s = omega arith
  attempts-remaining type ((code, now) ∷ rest) s =
      let s' = (verify_otp r t hmac secret token type code now s).1 in
      omega (arith, verify_otp-remaining type code now s, attempts-remaining type rest s')

  -- Whatever codes are tried, in whatever number and at whatever times, the code is compared with
  -- the password that a token stores at most three times, and fewer if attempts were made before,
  -- whichever writes and transactions the server refuses.
  pub attempts_bounded :
      (type : OtpType) (attempts : List Attempt) (otp : Otp) (s : r.Store)
      → r.get (token_key token) s ≡ some (otp_value otp)
      → (attempts_from type attempts s).0 ≤ 3 - otp.attempts
  attempts_bounded type attempts otp s h = ground (arith, attempts-remaining type attempts s)
