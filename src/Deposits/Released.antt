-- ===== src/Deposits/Released.antt =====
-- Which of the tasks' outcomes leave the lock released.
use looprail_backend.Prelude.{
  ℕ, ◌+◌, ◌≡◌, Bool, true, false, Option, String, List, ◌∷◌, arith, Bool-cases, inl, inr,
  if◌then◌else◌,
}
use looprail_backend.Transactions.{Transaction}
use looprail_backend.Deposits.StageLock.{StageLock}
use looprail_backend.Deposits.World
use looprail_backend.Deposits.World.{
  Event, WalletRow, AssetRow, Lookup, Call, acquired, released, Services, LedgerRequest, Refusal,
  Exception, Outcome, Outcome-cases, bind-ok, bind-refused, ok, refused, raised, World, Action,
  pure, refuse, require, ◌>>=◌, ◌>>◌, is_completed, find_one, same_text, hash_of,
}
use looprail_backend.Deposits.Initialize.{write_row, flush_again, flush_rows}
use looprail_backend.Deposits.Tasks.{
  finish, acquire_lock, skip_or_initialize, process_deposit_success, fetch_or_initialize,
  call_commit, complete_row, check_amount, settle, process_deposit_swept_success, notify,
}
use looprail_backend.Deposits.Counting.{
  acquisitions, releases, Releases, bind-Releases, cache_stage-Releases, initialize-Releases,
  require-Releases, resolve_source-Releases,
}

module _ (l : StageLock) (env : Services) (event : Event) where
  finish-Releases : Releases 1 (finish l)
  unfolding finish
  finish-Releases w = (λ a h. ground arith, λ e h. ground arith)

  call_commit-Releases : (ledger_id : Option String) → Releases 0 (call_commit l env ledger_id)
  unfolding call_commit
  call_commit-Releases ledger_id w = (λ a h. ground arith, λ e h. ground arith)

  complete_row-Releases : (id : ℕ) → Releases 0 (complete_row l env id)
  unfolding complete_row write_row flush_again flush_rows
  complete_row-Releases id w = (λ a h. ground arith, λ e h. ground arith)

  check_amount-Releases : Releases 0 (check_amount l env event)
  unfolding check_amount
  check_amount-Releases w = (λ a h. ground arith, λ e h. ground arith)

  -- the last release, and what follows it
  finish_and_notify-Releases : Releases 1 (finish l >> notify l env)
  unfolding ◌>>=◌ finish notify
  finish_and_notify-Releases w = (λ a h. ground arith, λ e h. ground arith)

  settle-Releases : (t : Transaction) → Releases 1 (settle l env event t)
  unfolding settle
  settle-Releases t = bind-Releases 1 _ _ check_amount-Releases (λ u.
      bind-Releases 1 _ _ (resolve_source-Releases l env event) (λ source.
        bind-Releases 1 _ _ (call_commit-Releases t.ledger_transaction_id) (λ c.
          bind-Releases 1 _ _ (complete_row-Releases t.id) (λ d.
            bind-Releases 1 _ _ (cache_stage-Releases l env event "swept")
              (λ v. finish_and_notify-Releases)))))

  fetch_or_initialize-Releases : Releases 0 (fetch_or_initialize l env event)
  unfolding fetch_or_initialize
  fetch_or_initialize-Releases w = ground (
    arith,
    initialize-Releases l env event w,
    λ (r : Lookup Transaction). require-Releases World.no_transaction r w,
  )

  skip_or_initialize-Releases :
      (found : Lookup Transaction) → Releases 1 (skip_or_initialize l env event found)
  unfolding skip_or_initialize finish
  skip_or_initialize-Releases Lookup.several w = (λ a h. ground arith, λ e h. ground arith)
  skip_or_initialize-Releases (Lookup.one t) w = (λ a h. ground arith, λ e h. ground arith)
  skip_or_initialize-Releases Lookup.missing w =
      bind-Releases 1 _ _ (initialize-Releases l env event) (λ t. finish-Releases) w

  finish_or_settle-Releases :
      (t : Transaction) → Releases 1 (if is_completed t then finish l else settle l env event t)
  finish_or_settle-Releases t = elim (Bool-cases (is_completed t)) [
    | inl h ↦ rw h finish-Releases
    | inr h ↦ rw h (settle-Releases t)
  ]

  swept_body-Releases : Releases 1 (
      fetch_or_initialize l env event >>= λ t.
      if is_completed t then finish l else settle l env event t)
  swept_body-Releases =
      bind-Releases 1 _ _ fetch_or_initialize-Releases (λ t. finish_or_settle-Releases t)

-- every acquisition in the record is matched by a release, if it was so before
abbrev pub Matched : List Call → List Call → Type 0
Matched before after = releases after + acquisitions before ≡ acquisitions after + releases before

abbrev pub is_raised : {A : Type 0} → Outcome A → Bool
is_raised (raised _) = true
is_raised _ = false

module _ {l : StageLock} where
  after-Matched :
      (w w1 : World l) (r : Outcome (Unit {0}) × World l)
      → releases w1.calls ≡ releases w.calls
      → acquisitions w1.calls ≡ 1 + acquisitions w.calls
      → ((a : Unit {0})
          → r.0 ≡ ok a
          → (releases r.1.calls ≡ 1 + releases w1.calls)
            × (acquisitions r.1.calls ≡ acquisitions w1.calls))
        × ((e : Refusal)
            → r.0 ≡ refused e
            → (releases r.1.calls ≡ 1 + releases w1.calls)
              × (acquisitions r.1.calls ≡ acquisitions w1.calls))
      → is_raised r.0 ≡ false
      → Matched w.calls r.1.calls
  after-Matched w w1 r p q h returns = elim (Outcome-cases r.0) [
    | inl (u, k) ↦ ground (arith, h.0 u k)
    | inr (inl (e, k)) ↦ ground (arith, h.1 e k)
    | inr (inr (x, k)) ↦ ground arith
  ]

  pub acquire_lock-taken :
      (w : World l)
      → (l.acquire w.store).0 ≡ true
      → acquire_lock l w
        ≡ (ok tt, record w { store = (l.acquire w.store).1; calls = acquired ∷ w.calls })
  unfolding acquire_lock
  acquire_lock-taken w h = ground arith

  acquire_lock-failed :
      (w : World l)
      → (l.acquire w.store).0 ≡ false
      → acquire_lock l w ≡ (refused World.not_acquired, record w { store = (l.acquire w.store).1 })
  unfolding acquire_lock
  acquire_lock-failed w h = ground arith

  acquire-Matched :
      (m : Action l (Unit {0})) (w : World l)
      → Releases 1 m
      → let (o, w') = (acquire_lock l >> m) w in is_raised o ≡ false → Matched w.calls w'.calls
  acquire-Matched m w h =
      let f : Unit {0} → Action l (Unit {0}) = λ _. m in
      let w1 : World l = record w { store = (l.acquire w.store).1; calls = acquired ∷ w.calls } in
      let w2 : World l = record w { store = (l.acquire w.store).1 } in
      elim (Bool-cases (l.acquire w.store).0) [
        | inl a ↦
            rw (bind-ok (acquire_lock l) f w w1 tt (acquire_lock-taken w a))
              (after-Matched w w1 (m w1) (ground arith) (ground arith) (h w1))
        | inr a ↦
            rw (bind-refused (acquire_lock l) f w w2 World.not_acquired (acquire_lock-failed w a))
              (λ returns. omega arith)
      ]

-- Both tasks release the lock that they acquired, exactly once, on every course on which they return, whether
-- it ends well or in an error that is logged. (Where they raise, they need not.)
pub task-releases :
    (l : StageLock) (env : Services) (event : Event) (w : World l)
    → (let (o, w') = process_deposit_success l env event w in
        is_raised o ≡ false → Matched w.calls w'.calls)
      × (let (o, w') = process_deposit_swept_success l env event w in
          is_raised o ≡ false → Matched w.calls w'.calls)
unfolding process_deposit_success process_deposit_swept_success
task-releases l env event w = (
  acquire-Matched _ w (λ v.
      skip_or_initialize-Releases l env event
        (find_one (λ t. same_text (hash_of t) event.hash) v.database.current.transactions) v),
  acquire-Matched _ w (swept_body-Releases l env event),
)
