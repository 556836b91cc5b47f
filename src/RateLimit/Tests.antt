-- ===== src/RateLimit/Tests.antt =====
-- The limits of "otp" on a server that keeps one key of each kind.
use looprail_backend.Prelude.{
  ℕ, suc, ◌+◌, ◌*◌, ◌-◌, ◌≤◌, ◌<◌, ◌≡◌, ◌∙◌, ap, refl, ltb, if◌then◌else◌, true, false, Option,
  none, some, List, [], ◌∷◌, ◌++◌, length, arith,
}
use looprail_backend.RateLimit.Server.{
  second, token, SubjectConfig, otp_config, LimitKey, by_email, by_ip, Bucket, recent, LimitServer,
}
use looprail_backend.RateLimit.Check.{
  Verdict, verdict, is_allowed, check_email_limit, check_ip_limit, check_limit,
}
use looprail_backend.RateLimit.Window.{History, serve, allowed-bounded}
use looprail_backend.RateLimit.Retry.{retry-allowed}
use looprail_backend.RateLimit.Tokens.{Since, serve_all, allowed-covered}

pub record Keys : Type 0 where
  pub window : List ℕ
  pub bucket : Option (Bucket × Option ℕ)
  pub number : ℕ

-- the deadline that a hash keeps, if it is alive
abbrev kept_deadline : ℕ → Option (Bucket × Option ℕ) → Option ℕ
kept_deadline now none = none
kept_deadline now (some (b, none)) = none
kept_deadline now (some (b, some deadline)) = if ltb now deadline then some deadline else none

abbrev stored : Bucket → ℕ → Option (Bucket × Option ℕ) → Option (Bucket × Option ℕ)
stored b now o = some (b, kept_deadline now o)

abbrev expired : ℕ → Option (Bucket × Option ℕ) → Option (Bucket × Option ℕ)
expired deadline none = none
expired deadline (some (b, old)) = some (b, some deadline)

no_deadline :
    (b : Bucket) (now : ℕ) (o : Option (Bucket × Option ℕ))
    → o ≡ none
    → stored b now o ≡ some (b, none)
no_deadline b now o h = ap (λ x. stored b now x) h

same_deadline :
    (old b : Bucket) (deadline now : ℕ) (o : Option (Bucket × Option ℕ))
    → o ≡ some (old, some deadline)
    → now < deadline
    → stored b now o ≡ some (b, some deadline)
same_deadline old b deadline now o h before =
    let alive : ltb now deadline ≡ true = ground arith in ap (λ x. stored b now x) h ∙ rw alive refl

ends :
    (b : Bucket) (old : Option ℕ) (deadline : ℕ) (o : Option (Bucket × Option ℕ))
    → o ≡ some (b, old)
    → expired deadline o ≡ some (b, some deadline)
ends b old deadline o h = ap (λ x. expired deadline x) h

abbrev server : LimitServer
server = record {
  Store = Keys;
  down = λ s. false;
  scores = λ k s. s.window;
  remove_old = λ k now window s. record s { window = recent now window s.window };
  add_score = λ k now s. record s { window = s.window ++ (now ∷ []) };
  bucket = λ k s. s.bucket;
  set_bucket = λ k b now s. record s { bucket = stored b now s.bucket };
  expire_bucket = λ k deadline s. record s { bucket = expired deadline s.bucket };
  get_number = λ k s. some s.number;
  increment = λ k s. (suc s.number, record s { number = suc s.number });
  set_number = λ k n s. record s { number = n };
  expire = λ k s. s;
  scores_removed = λ k now window s. refl;
  scores_added = λ k now s h. refl;
  scores_expire = λ j k s. refl;
  bucket_new = λ k b now s h. no_deadline b now s.bucket h;
  bucket_kept =
      λ k old b deadline now s h before. same_deadline old b deadline now s.bucket h before;
  bucket_expire = λ k b old deadline s h. ends b old deadline s.bucket h;
}

abbrev start : Keys
start = record { window = []; bucket = none; number = 0 }

abbrev moments : List ℕ
moments = 9 ∷ 8 ∷ 7 ∷ 5 ∷ 4 ∷ []

abbrev after : Keys
after = (serve server "otp" "a@b.c" moments start).1

in_order : History (10 ∷ moments)
in_order =
    (omega arith, (omega arith, (omega arith, (omega arith, (omega arith, (omega arith, tt))))))

not_before : Since 4 moments
not_before = (omega arith, (omega arith, (omega arith, (omega arith, (omega arith, tt)))))

sixth_refused : (check_email_limit server "otp" "a@b.c" 10 after).0 ≡ verdict false (some 3599)
unfolding check_email_limit looprail_backend.RateLimit.Server.config_of serve
    looprail_backend.RateLimit.Check.admit
sixth_refused = refl

allowed-bounded_example :
    length (recent 10 (3600 * second) (serve server "otp" "a@b.c" (10 ∷ moments) start).0) ≤ 5
unfolding looprail_backend.RateLimit.Server.config_of
allowed-bounded_example =
    allowed-bounded server "otp" "a@b.c" otp_config (10 ∷ moments) start refl (λ t. refl) refl
      in_order

retry-allowed_example :
    is_allowed
      (check_email_limit server "otp" "a@b.c" 3600000010
        (check_email_limit server "otp" "a@b.c" 10 after).1).0
    ≡ true
unfolding looprail_backend.RateLimit.Server.config_of
retry-allowed_example =
    retry-allowed server "otp" "a@b.c" otp_config moments start 10 3600000010 3599 refl (λ t. refl)
      refl in_order sixth_refused (omega arith)

allowed-covered_example :
    (serve_all server "otp" "10.0.0.1" 4 moments start).0 * token ≤ 20 * token + (9 - 4) * 10
unfolding looprail_backend.RateLimit.Server.config_of
allowed-covered_example =
    allowed-covered server "otp" "10.0.0.1" otp_config 4 moments start refl (λ t. refl) refl
      not_before (omega arith)
