-- ===== src/RateLimit/Window.antt =====
-- The sliding window of `_check_email_limit` over the requests of one address.
use looprail_backend.Prelude.{
  ℕ, suc, ◌≤◌, ◌<◌, ◌≡◌, ◌∙◌, sym, ap, refl, true, false, none, some, String, List, [], ◌∷◌, ◌++◌,
  leb, length, length-append, arith, if◌then◌else◌, Bool-cases, inl, inr,
}
use looprail_backend.RateLimit.Server.{
  window_ticks, SubjectConfig, config_of, by_email, is_recent, recent, Above, LimitServer,
}
use looprail_backend.RateLimit.Check.{verdict, is_allowed, retry_after, admit, check_email_limit}

-- the latest of the moments, which stand latest first
abbrev pub latest : List ℕ → ℕ
latest [] = 0
latest (now ∷ earlier) = now

-- each moment is later than the ones behind it
abbrev pub History : List ℕ → Type 0
History [] = Unit {0}
History (now ∷ earlier) = (latest earlier < now) × History earlier

pub recent-recent :
    (old now window : ℕ) (xs : List ℕ)
    → old ≤ now
    → recent now window (recent old window xs) ≡ recent now window xs
recent-recent old now window [] h = refl
recent-recent old now window (x ∷ xs) h = ground (arith, recent-recent old now window xs h)

pub recent-shorter : (now window : ℕ) (xs : List ℕ) → length (recent now window xs) ≤ length xs
recent-shorter now window [] = omega arith
recent-shorter now window (x ∷ xs) = ground (arith, recent-shorter now window xs)

recent-append :
    (now window : ℕ) (xs : List ℕ)
    → 0 < window
    → recent now window (xs ++ (now ∷ [])) ≡ recent now window xs ++ (now ∷ [])
recent-append now window [] h = ground arith
recent-append now window (x ∷ xs) h = ground (arith, recent-append now window xs h)

Above-later : (old now : ℕ) (xs : List ℕ) → old ≤ now → Above old xs → Above now xs
Above-later old now [] h a = tt
Above-later old now (x ∷ xs) h a = (omega (arith, a.0), Above-later old now xs h a.1)

Above-recent : (t now window : ℕ) (xs : List ℕ) → Above t xs → Above t (recent now window xs)
Above-recent t now window [] a = tt
Above-recent t now window (x ∷ xs) a = elim (Bool-cases (is_recent now window x)) [
  | inl h ↦ rw h (a.0, Above-recent t now window xs a.1)
  | inr h ↦ rw h (Above-recent t now window xs a.1)
]

Above-append : (t now : ℕ) (xs : List ℕ) → Above t xs → now < t → Above t (xs ++ (now ∷ []))
Above-append t now [] a h = (h, tt)
Above-append t now (x ∷ xs) a h = (a.0, Above-append t now xs a.1 h)

window_positive :
    (subject : String) (config : SubjectConfig)
    → config_of subject ≡ some config
    → 0 < (window_ticks config)
unfolding config_of
window_positive subject config h = ground arith

module _ (r : LimitServer) (subject email : String) where
  -- the requests, the latest first, one after another: the moments of those that were allowed, the earliest
  -- first, and the store
  unfoldable pub serve : List ℕ → r.Store → List ℕ × r.Store
  serve [] s = ([], s)
  serve (now ∷ earlier) s =
      let (allowed, s1) = serve earlier s in
      let (v, s2) = check_email_limit r subject email now s1 in
      (if is_allowed v then allowed ++ (now ∷ []) else allowed, s2)

  -- the stored scores are the moments of the requests allowed in the window, and there are not too many
  abbrev pub Windowed : SubjectConfig → ℕ → List ℕ → r.Store → Type 0
  Windowed config now allowed s =
      let inside = recent now (window_ticks config) allowed in
      (r.scores (by_email subject email) s ≡ inside)
      × (length inside ≤ config.email.count)
      × Above (suc now) allowed

  -- the scores that a request at `now` leaves
  abbrev pub cleared : SubjectConfig → ℕ → r.Store → r.Store
  cleared config now s = r.remove_old (by_email subject email) now (window_ticks config) s

  abbrev pub IsFull : SubjectConfig → ℕ → r.Store → Type 0
  IsFull config now s =
      leb config.email.count (length (r.scores (by_email subject email) (cleared config now s)))
      ≡ true

  pub denied-run :
      (config : SubjectConfig) (now : ℕ) (s : r.Store)
      → config_of subject ≡ some config
      → ((t : r.Store) → r.down t ≡ false)
      → IsFull config now s
      → let s' = cleared config now s in
        check_email_limit r subject email now s ≡ (
          verdict false
              (some (retry_after (r.scores (by_email subject email) s') (window_ticks config) now)),
          s',
        )
  unfolding check_email_limit
  denied-run config now s known up full = ground (arith, up s, up (cleared config now s))

  pub allowed-run :
      (config : SubjectConfig) (now : ℕ) (s : r.Store)
      → config_of subject ≡ some config
      → ((t : r.Store) → r.down t ≡ false)
      → leb config.email.count (length (r.scores (by_email subject email) (cleared config now s)))
        ≡ false
      → check_email_limit r subject email now s ≡ (
        verdict true none,
        r.expire
            (by_email subject email)
            (r.add_score (by_email subject email) now (cleared config now s)),
      )
  unfolding check_email_limit admit
  allowed-run config now s known up room =
      let s' = cleared config now s in
      ground (arith, up s, up s', up (r.add_score (by_email subject email) now s'))

  step-Windowed :
      (config : SubjectConfig) (old now : ℕ) (allowed : List ℕ) (s : r.Store)
      → config_of subject ≡ some config
      → ((t : r.Store) → r.down t ≡ false)
      → old < now
      → Windowed config old allowed s
      → let (v, s') = check_email_limit r subject email now s in
        Windowed config now (if is_allowed v then allowed ++ (now ∷ []) else allowed) s'
  step-Windowed config old now allowed s known up later h =
      let w = (window_ticks config) in
      let key = by_email subject email in
      let s' = cleared config now s in
      let left : r.scores key s' ≡ recent now w allowed =
        r.scores_removed key now w s
        ∙ ap (λ xs. recent now w xs) h.0
        ∙ recent-recent old now w allowed (omega arith) in
      let fewer : length (recent now w allowed) ≤ length (recent old w allowed) =
        rw (sym (recent-recent old now w allowed (omega arith)))
          (recent-shorter now w (recent old w allowed)) in
      let below = Above-later (suc old) now allowed (omega arith) h.2 in
      elim (Bool-cases (leb config.email.count (length (r.scores key s')))) [
        | inl full ↦
            rw (denied-run config now s known up full) (
              left,
              omega (arith, fewer, h.1),
              Above-later now (suc now) allowed (omega arith) below,
            )
        | inr room ↦
            let below' : Above now (r.scores key s') =
              rw left (Above-recent now now w allowed below) in
            let appended = recent-append now w allowed (window_positive subject config known) in
            let stored =
              r.scores_expire key key (r.add_score key now s')
              ∙ r.scores_added key now s' below'
              ∙ ap (λ xs. xs ++ (now ∷ [])) left
              ∙ sym appended in
            let counted : length (recent now w (allowed ++ (now ∷ []))) ≤ config.email.count =
              ground (
                arith,
                ap (λ xs. length xs) appended,
                ap (λ xs. length xs) left,
                length-append (recent now w allowed) (now ∷ []),
              ) in
            rw (allowed-run config now s known up room) (
              stored,
              counted,
              Above-append (suc now) now allowed
                  (Above-later now (suc now) allowed (omega arith) below) (omega arith),
            )
      ]

  pub serve-Windowed :
      (config : SubjectConfig) (moments : List ℕ) (s : r.Store)
      → config_of subject ≡ some config
      → ((t : r.Store) → r.down t ≡ false)
      → r.scores (by_email subject email) s ≡ []
      → History moments
      → let (allowed, s') = serve moments s in Windowed config (latest moments) allowed s'
  unfolding serve
  serve-Windowed config [] s known up empty order = (empty, omega arith, tt)
  serve-Windowed config (now ∷ earlier) s known up empty order =
      step-Windowed config (latest earlier) now (serve earlier s).0 (serve earlier s).1 known up
        order.0 (serve-Windowed config earlier s known up empty order.1)

  -- Requests for one address come one after another, at ever later moments, to a window that starts empty and a
  -- server that raises no error. Then after each of them, at most the configured number was allowed within the
  -- window that ends with it.
  pub allowed-bounded :
      (config : SubjectConfig) (moments : List ℕ) (s : r.Store)
      → config_of subject ≡ some config
      → ((t : r.Store) → r.down t ≡ false)
      → r.scores (by_email subject email) s ≡ []
      → History moments
      → length (recent (latest moments) (window_ticks config) (serve moments s).0)
        ≤ config.email.count
  allowed-bounded config moments s known up empty order =
      (serve-Windowed config moments s known up empty order).1
