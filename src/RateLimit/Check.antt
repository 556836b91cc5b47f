-- ===== src/RateLimit/Check.antt =====
-- `CustomRateLimiter`. Moments are whole microseconds, where the code has floats of seconds; the messages are left out, and with them the limits'
-- counts that they quote.
use looprail_backend.Prelude.{
  ℕ, suc, ◌+◌, ◌-◌, ◌*◌, ◌/◌, Bool, true, false, ◌&&◌, length, Option, none, some, String, List, [],
  ◌∷◌, leb, ltb, ◌==◌, if◌then◌else◌,
}
use looprail_backend.RateLimit.Server.{
  second, token, window_ticks, alive, IpConfig, config_of, LimitKey, by_email, by_ip, attempts,
  last_time, all_requests, Bucket, LimitServer,
}

-- `(allowed, error, value)`. `malformed`: a pair where the caller takes three values, a ValueError
pub data Verdict : Type 0 where
  verdict : Bool → Option ℕ → Verdict
  malformed : Verdict

abbrev pub is_allowed : Verdict → Bool
is_allowed (verdict allowed value) = allowed
is_allowed malformed = false

abbrev pub max : ℕ → ℕ → ℕ
max a b = if leb a b then b else a

abbrev pub min : ℕ → ℕ → ℕ
min a b = if leb a b then a else b

abbrev pub value_or : ℕ → Option ℕ → ℕ
value_or d none = d
value_or d (some v) = v

-- `delays.get(attempt, 900)`
abbrev pub delay_for : ℕ → List (ℕ × ℕ) → ℕ
delay_for attempt [] = 900
delay_for attempt ((a, delay) ∷ rest) = if a == attempt then delay else delay_for attempt rest

-- `int(oldest_score + limit_window_seconds - now)` in whole seconds, at least one
abbrev pub retry_after : List ℕ → ℕ → ℕ → ℕ
retry_after [] window now = 1
retry_after (oldest ∷ rest) window now = max 1 ((oldest + window - now) / second)

-- the result of `check_limit`: allowed, attempts and the time after which to try again
pub record Decision : Type 0 where
  pub allowed : Bool
  pub tries : Option ℕ
  pub retry : Option ℕ

module _ (r : LimitServer) where
  -- the rest of a method, where the next command raises an error: then all is allowed
  abbrev pub unless_down : r.Store → Option ℕ → Verdict × r.Store → Verdict × r.Store
  unless_down s value rest = if r.down s then (verdict true value, s) else rest

  -- the request is added to the window
  unfoldable pub admit : LimitKey → ℕ → r.Store → Verdict × r.Store
  admit key now s =
      let s' = r.add_score key now s in
      unless_down s none (unless_down s' none (verdict true none, r.expire key s'))

  -- `_check_email_limit`
  unfoldable pub check_email_limit : String → String → ℕ → r.Store → Verdict × r.Store
  check_email_limit subject email now s = elim (config_of subject) [
    | none ↦ (malformed, s)
    | some config ↦
        let key = by_email subject email in
        let s' = r.remove_old key now (window_ticks config) s in
        let scores = r.scores key s' in
        unless_down s none (
          unless_down s' none (
            if leb config.email.count (length scores)
            then unless_down s' none
                (verdict false (some (retry_after scores (window_ticks config) now)), s')
            else admit key now s'))
  ]

  -- the tokens of a bucket at `now`, in units of `token`
  abbrev pub refilled : IpConfig → Bucket → ℕ → ℕ
  refilled config b now =
      min (config.capacity * token) (b.tokens + (now - b.last_update) * config.refill_rate_per_hour)

  -- a token is taken, if there is one
  unfoldable pub take_token : IpConfig → LimitKey → Bucket → ℕ → r.Store → Verdict × r.Store
  take_token config key b now s =
      let tokens = refilled config b now in
      if ltb tokens token
      then (verdict false (some ((token - tokens) / (config.refill_rate_per_hour * second))), s)
      else unless_down s none (
        verdict true none,
        r.set_bucket key (record { tokens = tokens - token; last_update = now }) now s,
      )

  -- `_check_ip_limit`
  unfoldable pub check_ip_limit : String → String → ℕ → r.Store → Verdict × r.Store
  check_ip_limit subject ip now s = elim (config_of subject) [
    | none ↦ (verdict true none, s)
    | some config ↦
        let key = by_ip subject ip in
        let full : Bucket = record {
          tokens = (config.ip.capacity - 1) * token;
          last_update = now;
        } in
        let s' = r.set_bucket key full now s in
        let deadline = now + config.ip.redis_expiry_seconds * second in
        unless_down s none (elim (alive now (r.bucket key s)) [
          | none ↦
              unless_down s none
                (unless_down s' none (verdict true none, r.expire_bucket key deadline s'))
          | some b ↦ take_token config.ip key b now s
        ])
  ]

  -- the attempt is counted, and its moment kept
  unfoldable pub count_try : String → String → ℕ → r.Store → Verdict × r.Store
  count_try subject email now s =
      let (n, s') = r.increment (attempts subject email) s in
      let s'' = if n == 1 then r.expire (attempts subject email) s' else s' in
      unless_down s (some 0) (
        unless_down s' (some 0) (
          unless_down s'' (some 0)
            (verdict true (some n), r.set_number (last_time subject email) now s'')))

  -- the attempt comes before its delay is over
  abbrev pub is_early : Option ℕ → ℕ → ℕ → Bool
  is_early none delay now = false
  is_early (some last) delay now = ltb (now - last) (delay * second)

  -- `_check_progressive_delay`
  unfoldable pub check_progressive_delay : String → String → ℕ → r.Store → Verdict × r.Store
  check_progressive_delay subject email now s = elim (config_of subject) [
    | none ↦ (verdict true none, s)
    | some config ↦
        let current = value_or 0 (r.get_number (attempts subject email) s) in
        let delay = delay_for (suc current) config.delays in
        unless_down s (some 0) (
          if ltb 0 delay && is_early (r.get_number (last_time subject email) s) delay now
          then (verdict false (some current), s)
          else count_try subject email now s)
  ]

  -- `_check_global_limit`
  unfoldable pub check_global_limit : String → r.Store → Bool × r.Store
  check_global_limit subject s = elim (config_of subject) [
    | none ↦ (true, s)
    | some config ↦
        let (n, s') = r.increment (all_requests subject) s in
        let s'' = if n == 1 then r.expire (all_requests subject) s' else s' in
        if r.down s
        then (true, s)
        else (if r.down s' && (n == 1) then (true, s') else (leb n config.global_count, s''))
  ]

  abbrev pub decision : Bool → Option ℕ → Option ℕ → Decision
  decision allowed tries retry = record { allowed = allowed; tries = tries; retry = retry }

  -- the checks of `check_limit` after the first
  unfoldable pub check_rest : String → String → String → ℕ → r.Store → Option Decision × r.Store
  check_rest subject ip identifier now s =
      let (by_address, s1) = check_ip_limit subject ip now s in
      let (by_tries, s2) = check_progressive_delay subject identifier now s1 in
      let (by_all, s3) = check_global_limit subject s2 in
      elim by_address [
        | malformed ↦ (none, s1)
        | verdict false wait ↦ (some (decision false none wait), s1)
        | verdict true wait ↦ elim by_tries [
          | malformed ↦ (none, s2)
          | verdict false tries ↦ (some (decision false tries wait), s2)
          | verdict true tries ↦
              if by_all
              then (some (decision true tries wait), s3)
              else (some (decision false none wait), s3)
        ]
      ]

  -- `check_limit`. `none`: the first check's answer is a pair, which cannot be unpacked
  unfoldable pub check_limit : String → String → String → ℕ → r.Store → Option Decision × r.Store
  check_limit subject ip identifier now s =
      let (by_mail, s1) = check_email_limit subject identifier now s in
      elim by_mail [
        | malformed ↦ (none, s1)
        | verdict false wait ↦ (some (decision false none wait), s1)
        | verdict true wait ↦ check_rest subject ip identifier now s1
      ]
