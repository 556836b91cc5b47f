-- ===== src/RateLimit/Retry.antt =====
-- What a refusal of `_check_email_limit` promises.
use looprail_backend.Prelude.{
  ℕ, ◌+◌, ◌*◌, ◌≤◌, ◌<◌, ◌≡◌, ap, true, false, some, String, List, [], ◌∷◌, leb, length, arith,
  Bool-cases, inl, inr,
}
use looprail_backend.RateLimit.Server.{
  second, window_ticks, SubjectConfig, config_of, by_email, recent, LimitServer,
}
use looprail_backend.RateLimit.Check.{verdict, is_allowed, retry_after, check_email_limit}
use looprail_backend.RateLimit.Window.{
  History, serve, serve-Windowed, denied-run, allowed-run, cleared, recent-shorter,
}

count_positive :
    (subject : String) (config : SubjectConfig)
    → config_of subject ≡ some config
    → 0 < config.email.count
unfolding config_of
count_positive subject config h = ground arith

-- a second after the wait, the oldest score is out of the window
shrinks :
    (xs : List ℕ) (window now later : ℕ)
    → 0 < length xs
    → now + (retry_after xs window now + 1) * second ≤ later
    → length (recent later window xs) < length xs
shrinks [] window now later h k = ground arith
shrinks (x ∷ xs) window now later h k = ground (arith, recent-shorter later window xs)

module _ (r : LimitServer) (subject email : String) where
  full-or_not :
      (config : SubjectConfig) (now : ℕ) (s : r.Store)
      → config_of subject ≡ some config
      → ((t : r.Store) → r.down t ≡ false)
      → is_allowed (check_email_limit r subject email now s).0 ≡ false
      → leb config.email.count
          (length (r.scores (by_email subject email) (cleared r subject email config now s)))
        ≡ true
  full-or_not config now s known up refused =
      elim (Bool-cases (
        leb config.email.count
          (length (r.scores (by_email subject email) (cleared r subject email config now s))))) [
            | inl full ↦ full
            | inr room ↦ ground (arith, allowed-run r subject email config now s known up room)
          ]

  -- A request that is refused, after others as in `allowed-bounded`, is told how long to wait. The next request of the
  -- address is allowed if it comes a second after that time is over, or later: the time is cut to whole seconds.
  pub retry-allowed :
      (config : SubjectConfig) (moments : List ℕ) (s : r.Store) (now later wait : ℕ)
      → config_of subject ≡ some config
      → ((t : r.Store) → r.down t ≡ false)
      → r.scores (by_email subject email) s ≡ []
      → History (now ∷ moments)
      → let (v, s') = check_email_limit r subject email now (serve r subject email moments s).1 in
        v ≡ verdict false (some wait)
        → now + (wait + 1) * second ≤ later
        → is_allowed (check_email_limit r subject email later s').0 ≡ true
  retry-allowed config moments s now later wait known up empty order told k =
      let w = window_ticks config in
      let key = by_email subject email in
      let s1 = (serve r subject email moments s).1 in
      let s2 = cleared r subject email config now s1 in
      let xs = r.scores key s2 in
      let full = full-or_not config now s1 known up (ground arith) in
      let run = denied-run r subject email config now s1 known up full in
      let same : wait ≡ retry_after xs w now = ground arith in
      let kept = (serve-Windowed r subject email config moments s known up empty order.1) in
      let before : length xs ≤ config.email.count = ground (
        arith,
        ap (λ ys. length ys) (r.scores_removed key now w s1),
        recent-shorter now w (r.scores key s1),
        ap (λ ys. length ys) kept.0,
        kept.1,
      ) in
      let filled : 0 < length xs = ground (arith, count_positive subject config known) in
      let fewer = shrinks xs w now later filled (ground arith) in
      let after : r.scores key (cleared r subject email config later s2) ≡ recent later w xs =
        r.scores_removed key later w s2 in
      let room : leb config.email.count
            (length (r.scores key (cleared r subject email config later s2)))
          ≡ false =
        ground (arith, ap (λ ys. length ys) after) in
      rw run (
        ap (λ result. is_allowed result.0)
          (allowed-run r subject email config later s2 known up room))
