-- ===== src/Deposits/Tasks.antt =====
-- The two tasks of services/deposits/tasks.py. The notifications after the last release are left out.
use looprail_backend.Prelude.{
  ℕ, Bool, false, Option, none, some, String, ◌∷◌, str_eq, if◌then◌else◌,
}
use looprail_backend.Database.{commit}
use looprail_backend.Transactions.{Transaction, TransactionStatus, get_transaction_by_id}
use looprail_backend.Deposits.StageLock.{StageLock}
use looprail_backend.Deposits.World
use looprail_backend.Deposits.World.{
  Event, WalletRow, AssetRow, Lookup, missing, several, one, LedgerRequest, Call, Services, Refusal,
  Exception, Outcome, ok, refused, raised, World, same_text, hash_of, find_one, deposit_of,
  put_stage, is_completed, Action, pure, raise, released_world, refuse, require, ◌>>=◌, ◌>>◌,
}
use looprail_backend.Deposits.Initialize.{
  resolve_source, write_row, cache_stage, initialize_deposit_transaction,
}

module _ (l : StageLock) where
  -- the last release, whose error is only logged
  unfoldable pub finish : Action l (Unit {0})
  finish w = (ok tt, released_world w)

  -- `lock.acquire` with the timeout of 30 seconds
  unfoldable pub acquire_lock : Action l (Unit {0})
  acquire_lock w =
      let (taken, s) = l.acquire w.store in
      if taken
      then (ok tt, record w { store = s; calls = World.acquired ∷ w.calls })
      else (refused World.not_acquired, record w { store = s })

  -- what a deposit's hash finds: a row that is not completed is read for the log, which raises
  unfoldable pub skip_or_initialize : Services → Event → Lookup Transaction → Action l (Unit {0})
  skip_or_initialize env event several = raise World.multiple_results
  skip_or_initialize env event (one t) =
      if is_completed t then finish else raise World.attribute_error
  skip_or_initialize env event missing = do initialize_deposit_transaction l env event; finish

  -- `_process_deposit_success_task_async`
  unfoldable pub process_deposit_success : Services → Event → Action l (Unit {0})
  process_deposit_success env event = do
    acquire_lock
    λ w.
        skip_or_initialize env event
          (find_one (λ t. same_text (hash_of t) event.hash) w.database.current.transactions) w

  abbrev pub is_received : Option String → Bool
  is_received stage = elim stage [ none ↦ false | some st ↦ str_eq st "received" ]

  abbrev pub has_reference : String → Transaction → Bool
  has_reference reference t = same_text t.external_reference (some reference)

  -- the transaction of an event whose stage is cached, or one that is initialized now
  unfoldable pub fetch_or_initialize : Services → Event → Action l Transaction
  fetch_or_initialize env event w =
      if is_received (l.get_state w.store)
      then require World.no_transaction
          (find_one (has_reference event.reference) w.database.current.transactions) w
      else initialize_deposit_transaction l env event w

  unfoldable pub call_commit : Services → Option String → Action l (Unit {0})
  call_commit env ledger_id w =
      let answer = env.commit_inflight ledger_id w.calls in
      let w' : World l = record w { calls = World.committed ledger_id answer ∷ w.calls } in
      if answer then (ok tt, w') else refuse World.not_committed w'

  -- the row is read again, and written as completed
  unfoldable pub complete_row : Services → ℕ → Action l (Unit {0})
  complete_row env id w = elim (get_transaction_by_id id w.database) [
    | none ↦ (raised World.attribute_error, w)
    | some t ↦
        let t' : Transaction = record t { status = TransactionStatus.completed } in
        write_row l env t' "swept" w
  ]

  -- `float(event.data.amount)`, of the texts that `Decimal` takes
  unfoldable pub check_amount : Services → Event → Action l (Unit {0})
  check_amount env event = elim (env.read_decimal event.amount) [
    | none ↦ refuse World.invalid_amount
    | some amount ↦ pure tt
  ]

  -- what follows the last release
  unfoldable pub notify : Services → Action l (Unit {0})
  notify env w = if env.notifies w.calls then (ok tt, w) else (raised World.not_notified, w)

  unfoldable pub settle : Services → Event → Transaction → Action l (Unit {0})
  settle env event t = do
    check_amount env event
    source ← resolve_source l env event
    call_commit env t.ledger_transaction_id
    complete_row env t.id
    cache_stage l "swept"
    finish
    notify env

  -- `_process_deposit_swept_success_task_async`
  unfoldable pub process_deposit_swept_success : Services → Event → Action l (Unit {0})
  process_deposit_swept_success env event = do
    acquire_lock
    t ← fetch_or_initialize env event
    if is_completed t then finish else settle env event t

  -- the end of the session in `get_session`: a commit, or a rollback where the task raised
  abbrev pub end_session : Outcome (Unit {0}) × World l → World l
  end_session (o, w) = elim o [
    | raised x ↦ record w {
      database = record { saved = w.database.saved; current = w.database.saved };
    }
    | _ ↦ record w { database = commit w.database }
  ]

  unfoldable pub run_task : Action l (Unit {0}) → World l → World l
  run_task m w = end_session (m w)
