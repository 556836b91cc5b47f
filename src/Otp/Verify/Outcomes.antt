-- ===== src/Otp/Verify/Outcomes.antt =====
-- When a one-time password is accepted, and that it is accepted once.
use looprail_backend.Prelude.{
  ℕ, ◌+◌, ◌≤◌, ◌≡◌, true, none, some, String, List, [], ◌∷◌, arith, str_eq_iff, inl, inr,
  Option-cases, refl, ◌∙◌,
}
use looprail_backend.Redis
use looprail_backend.Redis.{RedisServer, Transactions, Command, delete_key, set_key}
use looprail_backend.Otp
use looprail_backend.Otp.{
  Otp, OtpKey, token_key, email_key, OtpValue, otp_value, token_value, OtpType, same_type,
  onboarding_email_verification, password_reset,
}
use looprail_backend.Otp.Verify.{
  verified, invalid_otp_token, compare_code, count_attempt, verify_otp,
}
use looprail_backend.Otp.Verify.Attempts.{get_otp-stored, get-delete_keys}

same_type_refl : (a : OtpType) → same_type a a ≡ true
same_type_refl onboarding_email_verification = refl
same_type_refl password_reset = refl

module _ (r : RedisServer OtpKey OtpValue) (t : Transactions r) (hmac : String → String → String)
    (secret token : String) where
  compare_code-verified :
      (otp o : Otp) (code : String) (s : r.Store)
      → (compare_code r t hmac secret otp code s).0 ≡ verified o
      → (hmac secret code ≡ otp.code_hash)
        × ((Otp.delete_otp r t hmac secret otp.user_email s).0 ≡ none)
        × ((compare_code r t hmac secret otp code s).1
            ≡ (Otp.delete_otp r t hmac secret otp.user_email s).1)
        × (o.user_email ≡ otp.user_email)
  unfolding compare_code Otp.verify_code
  compare_code-verified otp o code s h = ground (arith, str_eq_iff (hmac secret code) otp.code_hash)

  count_attempt-verified :
      (otp o : Otp) (code : String) (s : r.Store)
      → (count_attempt r t hmac secret otp token code s).0 ≡ verified o
      → let tried : Otp = record otp { attempts = otp.attempts + 1 } in
        let (e, s') = Otp.update_otp r t hmac secret token tried s in
        (otp.attempts ≤ 2)
        × (e ≡ none)
        × ((compare_code r t hmac secret tried code s').0 ≡ verified o)
        × ((count_attempt r t hmac secret otp token code s).1
            ≡ (compare_code r t hmac secret tried code s').1)
  unfolding count_attempt
  count_attempt-verified otp o code s h = ground arith

  verify_otp-verified :
      (type : OtpType) (o : Otp) (code : String) (now : ℕ) (s : r.Store)
      → (verify_otp r t hmac secret token type code now s).0 ≡ verified o
      → (otp : Otp) × ((Otp.get_otp r t hmac secret token type s).0 ≡ some otp)
        × (now ≤ otp.expires_at)
        × ((count_attempt r t hmac secret otp token code s).0 ≡ verified o)
        × ((verify_otp r t hmac secret token type code now s).1
            ≡ (count_attempt r t hmac secret otp token code s).1)
  unfolding verify_otp Otp.is_expired
  verify_otp-verified type o code now s h =
      elim (Option-cases (Otp.get_otp r t hmac secret token type s).0) [
        | inl missing ↦ ground arith
        | inr (otp, found) ↦ (otp, found, ground arith, ground arith, ground arith)
      ]

  -- An accepted code is the one that was stored: the token's password has the requested type, has
  -- not expired, had fewer than three attempts, and its hash is the code's.
  pub verified_sound :
      (type : OtpType) (o : Otp) (code : String) (now : ℕ) (s : r.Store)
      → (verify_otp r t hmac secret token type code now s).0 ≡ verified o
      → (otp : Otp) × (r.get (token_key token) s ≡ some (otp_value otp))
        × (otp.otp_type ≡ type)
        × (now ≤ otp.expires_at)
        × (otp.attempts ≤ 2)
        × (hmac secret code ≡ otp.code_hash)
  verified_sound type o code now s h =
      let (otp, found, fresh, counted, _) = verify_otp-verified type o code now s h in
      let (few, _, compared, _) = count_attempt-verified otp o code s counted in
      let tried : Otp = record otp { attempts = otp.attempts + 1 } in
      let stored = get_otp-stored r t hmac secret token type otp s found in
      let same =
        compare_code-verified tried o code (Otp.update_otp r t hmac secret token tried s).1
          compared in
      (otp, stored.0, stored.1, fresh, few, same.0)

  get-update_otp_email :
      (user_email : String) (otp : Otp) (s : r.Store)
      → r.get (email_key user_email) (Otp.update_otp r t hmac secret token otp s).1
        ≡ r.get (email_key user_email) s
  unfolding Otp.update_otp
  get-update_otp_email user_email otp s = ground (
    arith,
    r.get-set_ne (email_key user_email) (token_key token) (otp_value otp) Redis.default_ttl s
        (λ e. cc),
  )

  delete_otp-deleted :
      (user_email : String) (s : r.Store)
      → r.get (email_key user_email) s ≡ some (token_value token)
      → (Otp.delete_otp r t hmac secret user_email s).0 ≡ none
      → r.get (token_key token) (Otp.delete_otp r t hmac secret user_email s).1 ≡ none
  unfolding Otp.delete_otp
  delete_otp-deleted user_email s h e =
      let commands : List (Command OtpKey OtpValue) =
        delete_key (token_key token) ∷ delete_key (email_key user_email) ∷ [] in
      ground (
        arith,
        t.exec_done commands s,
        str_eq_iff token token,
        get-delete_keys r t hmac secret token user_email token s,
      )

  unknown_token :
      (type : OtpType) (code : String) (now : ℕ) (s : r.Store)
      → r.get (token_key token) s ≡ none
      → verify_otp r t hmac secret token type code now s ≡ (invalid_otp_token, s)
  unfolding verify_otp Otp.get_otp
  unknown_token type code now s h = ground arith

  -- A password is accepted once: if the email key of the accepted password holds the token, then
  -- every later attempt with the token is refused as an unknown token, whatever its code, type and time.
  pub verified_once :
      (type : OtpType) (o : Otp) (code : String) (now : ℕ) (s : r.Store) (later : OtpType)
      (again : String) (at : ℕ)
      → (verify_otp r t hmac secret token type code now s).0 ≡ verified o
      → r.get (email_key o.user_email) s ≡ some (token_value token)
      → let s' = (verify_otp r t hmac secret token type code now s).1 in
        verify_otp r t hmac secret token later again at s' ≡ (invalid_otp_token, s')
  verified_once type o code now s later again at h e =
      let (otp, found, fresh, counted, last) = verify_otp-verified type o code now s h in
      let (_, _, compared, via) = count_attempt-verified otp o code s counted in
      let tried : Otp = record otp { attempts = otp.attempts + 1 } in
      let s₁ = (Otp.update_otp r t hmac secret token tried s).1 in
      let (_, deleted, end, same) = compare_code-verified tried o code s₁ compared in
      let kept = get-update_otp_email otp.user_email tried s in
      let held : r.get (email_key otp.user_email) s₁ ≡ some (token_value token) = ground arith in
      let gone = delete_otp-deleted otp.user_email s₁ held deleted in
      rw (last ∙ via ∙ end)
        (unknown_token later again at (Otp.delete_otp r t hmac secret otp.user_email s₁).1 gone)

  -- the server takes every write and every transaction
  abbrev pub Available : Type 0
  Available =
      ((k : OtpKey) (v : OtpValue) (ttl : ℕ) (s : r.Store) → (r.set k v ttl s).0 ≡ true)
      × ((cs : List (Command OtpKey OtpValue)) (s : r.Store) → (t.exec cs s).0 ≡ true)

  delete_otp-available :
      (user_email : String) (s : r.Store)
      → Available
      → r.get (email_key user_email) s ≡ some (token_value token)
      → (Otp.delete_otp r t hmac secret user_email s).0 ≡ none
  unfolding Otp.delete_otp
  delete_otp-available user_email s works h =
      ground
        (arith, works.1 (delete_key (token_key token) ∷ delete_key (email_key user_email) ∷ []) s)

  update_otp-available :
      (otp : Otp) (s : r.Store) → Available → (Otp.update_otp r t hmac secret token otp s).0 ≡ none
  unfolding Otp.update_otp
  update_otp-available otp s works =
      ground (arith, works.0 (token_key token) (otp_value otp) Redis.default_ttl s)

  -- a first, second or third attempt with the right code, in time
  pub verify_accepts :
      (otp : Otp) (code : String) (now : ℕ) (s : r.Store)
      → Available
      → r.get (token_key token) s ≡ some (otp_value otp)
      → r.get (email_key otp.user_email) s ≡ some (token_value token)
      → now ≤ otp.expires_at
      → otp.attempts ≤ 2
      → hmac secret code ≡ otp.code_hash
      → (verify_otp r t hmac secret token otp.otp_type code now s).0
        ≡ verified (record otp { attempts = otp.attempts + 1; status = Otp.OtpStatus.used })
  unfolding verify_otp Otp.get_otp Otp.is_expired count_attempt compare_code Otp.verify_code
  verify_accepts otp code now s works stored mail fresh few right =
      let tried : Otp = record otp { attempts = otp.attempts + 1 } in
      let s₁ = (Otp.update_otp r t hmac secret token tried s).1 in
      let kept = get-update_otp_email otp.user_email tried s in
      let held : r.get (email_key otp.user_email) s₁ ≡ some (token_value token) = kept ∙ mail in
      ground (
        arith,
        same_type_refl otp.otp_type,
        update_otp-available tried s works,
        delete_otp-available otp.user_email s₁ works held,
        str_eq_iff (hmac secret code) otp.code_hash,
      )

  abbrev pub fresh_otp : String → OtpType → String → ℕ → Otp
  fresh_otp user_email type code now = record {
    user_email = user_email;
    created_at = now;
    expires_at = now + 300;
    status = Otp.OtpStatus.active;
    code_hash = hmac secret code;
    otp_type = type;
    attempts = 0;
  }

  generate_otp-stored :
      (user_email code : String) (type : OtpType) (now : ℕ) (s : r.Store)
      → (Otp.generate_otp r t hmac secret user_email type code token now s).0
        ≡ (some (code, token), none)
      → let s' = (Otp.generate_otp r t hmac secret user_email type code token now s).1 in
        (r.get (token_key token) s' ≡ some (otp_value (fresh_otp user_email type code now)))
        × (r.get (email_key user_email) s' ≡ some (token_value token))
  unfolding Otp.generate_otp
  generate_otp-stored user_email code type now s h =
      let v = otp_value (fresh_otp user_email type code now) in
      let commands : List (Command OtpKey OtpValue) =
        set_key (token_key token) v Redis.default_ttl
        ∷ set_key (email_key user_email) (token_value token) Redis.default_ttl
        ∷ [] in
      let s₁ = (r.set (token_key token) v Redis.default_ttl s).1 in
      let committed : (t.exec commands s).0 ≡ true = ground arith in
      let (took, rest) = t.exec_accepted commands s committed in
      let one = r.get-set_self (token_key token) v Redis.default_ttl s took in
      let two =
        r.get-set_self (email_key user_email) (token_value token) Redis.default_ttl s₁ rest.0 in
      let apart =
        r.get-set_ne (token_key token) (email_key user_email) (token_value token) Redis.default_ttl
          s₁ (λ e. cc) in
      let done = t.exec_done commands s committed in
      (ground (arith, done, one, apart), ground (arith, done, two))

  -- The code that `generate_otp` returns is accepted with its token for five minutes, while the
  -- server takes all writes and transactions.
  pub verify-generate :
      (user_email code : String) (type : OtpType) (now at : ℕ) (s : r.Store)
      → (Otp.generate_otp r t hmac secret user_email type code token now s).0
        ≡ (some (code, token), none)
      → at ≤ now + 300
      → Available
      → let s' = (Otp.generate_otp r t hmac secret user_email type code token now s).1 in
        (verify_otp r t hmac secret token type code at s').0
        ≡ verified (record {
          user_email = user_email;
          created_at = now;
          expires_at = now + 300;
          status = Otp.OtpStatus.used;
          code_hash = hmac secret code;
          otp_type = type;
          attempts = 1;
        })
  verify-generate user_email code type now at s h fresh works =
      let s' = (Otp.generate_otp r t hmac secret user_email type code token now s).1 in
      let (stored, mail) = generate_otp-stored user_email code type now s h in
      verify_accepts (fresh_otp user_email type code now) code at s' works stored mail fresh
        (omega arith) refl
