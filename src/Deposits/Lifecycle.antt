-- ===== src/Deposits/Lifecycle.antt =====
-- A deposit from its first event to its last, where all services answer.
use looprail_backend.Prelude.{
  ◌≡◌, ◌∙◌, ap, refl, true, none, some, List, [], ◌∷◌, ◌++◌, arith, if◌then◌else◌, str_eq_iff,
}
use looprail_backend.Transactions.{Transaction, TransactionStatus, Detail, find_row}
use looprail_backend.Deposits.StageLock.{StageLock}
use looprail_backend.Deposits.World
use looprail_backend.Deposits.World.{
  Event, Lookup, missing, one, Call, acquired, released, Services, Outcome, ok, World, Action,
  ◌>>=◌, ◌>>◌, pure, released_world, bind_then, find_one, same_text, hash_of, put_stage,
  is_completed, LedgerRequest, require,
}
use looprail_backend.Deposits.Tasks.{
  finish, skip_or_initialize, process_deposit_success, fetch_or_initialize, is_received,
  has_reference, settle, process_deposit_swept_success, run_task, notify,
}
use looprail_backend.Deposits.Released.{acquire_lock-taken}
use looprail_backend.Deposits.Answers.{Answers}
use looprail_backend.Deposits.Runs.{
  prepared, new_row, new_details, received_row, received_world, request_for, initialize-run,
}
use looprail_backend.Deposits.Settling.{taken, settle-run, settled_world, completed, state_of}
use looprail_backend.Deposits.Deliveries.{
  notify-true, Unknown, Undisturbed, run_task-ok, find_one-append, stage_next, fresh,
  pending_incomplete,
}

module _ (l : StageLock) (env : Services) (event : Event) (a : Answers env event) where
  finish-run : (w : World l) → finish l w ≡ (ok tt, released_world w)
  unfolding finish
  finish-run w = refl

  -- the world once the first event's task has returned
  abbrev pub opened_world : World l → World l
  opened_world w = released_world (received_world l env event a (taken l env event a w))

  skip_or_initialize-run :
      (w : World l)
      → Unknown event w.database.current.transactions
      → skip_or_initialize l env event
          (find_one (λ t. same_text (hash_of t) event.hash) w.database.current.transactions)
          w
        ≡ (ok tt, released_world (received_world l env event a w))
  unfolding skip_or_initialize
  skip_or_initialize-run w unknown =
      ap (λ found. skip_or_initialize l env event found w) unknown
      ∙ bind_then _ _ _ _ _ _ (initialize-run l env event a w unknown) (finish-run _)

  success-run :
      (w : World l)
      → (l.acquire w.store).0 ≡ true
      → Unknown event w.database.current.transactions
      → process_deposit_success l env event w ≡ (ok tt, opened_world w)
  unfolding process_deposit_success
  success-run w free unknown =
      bind_then _ _ _ _ _ _ (acquire_lock-taken w free)
        (skip_or_initialize-run (taken l env event a w) unknown)

  -- the transaction with the reference is the last one, as its task left it
  fetch-run :
      (w : World l) (t : Transaction)
      → is_received l (l.get_state w.store) ≡ true
      → find_one (has_reference l event.reference) w.database.current.transactions ≡ one t
      → fetch_or_initialize l env event w ≡ (ok t, w)
  unfolding fetch_or_initialize
  fetch-run w t h found = rw h (ap (λ r. require World.no_transaction r w) found)

  settle_found-run :
      (w : World l) (t : Transaction) (details : List Detail) (store : l.Store) (calls : List Call)
      → find_row t.id w.database.current.transactions ≡ none
      → t.status ≡ TransactionStatus.pending
      → (if is_completed t then finish l else settle l env event t)
          (state_of l env event a w t details store calls)
        ≡ notify l env (settled_world l env event a w t details store calls)
  settle_found-run w t details store calls alone pending =
      rw (pending_incomplete t pending) (settle-run l env event a w t details store calls alone)

module _ (l : StageLock) (env : Services) (event : Event) (a : Answers env event)
    (calm : Undisturbed l) where
  -- what the first task left, saved
  abbrev pub opened_saved : World l → World l
  opened_saved w =
      let v = opened_world l env event a w in
      record v { database = record { saved = v.database.current; current = v.database.current } }

  -- the same, without the new row
  abbrev pub before_row : World l → World l
  before_row w =
      let v = opened_world l env event a w in
      record v { database = record { saved = v.database.current; current = w.database.current } }

  abbrev pub closed_world : World l → World l
  closed_world w =
      let w1 = taken l env event a w in
      let v = opened_world l env event a w in
      settled_world l env event a (before_row w) (received_row l env event a w1)
        (put_stage (new_row l env event a w1).id "received" (new_details l env event a w1))
        (l.acquire v.store).1 (acquired ∷ v.calls)

  after-run :
      (w : World l)
      → find_one (has_reference l event.reference) w.database.current.transactions ≡ missing
      → process_deposit_swept_success l env event (opened_saved w) ≡ notify l env (closed_world w)
  unfolding process_deposit_swept_success
  after-run w unused =
      let after = opened_saved w in
      let w1 = taken l env event a w in
      let t = received_row l env event a w1 in
      let same : has_reference l event.reference t ≡ true =
        ground (arith, str_eq_iff event.reference event.reference) in
      bind_then _ _ _ _ _ _ (acquire_lock-taken after (calm.free after.store)) (
        bind_then _ _ _ _ _ _
          (fetch-run l env event a (taken l env event a after) t
            (ap (λ st. is_received l st) (stage_next l env event a calm "received" w1.store))
            (find_one-append (has_reference l event.reference) w.database.current.transactions t
              unused same))
          (settle_found-run l env event a (before_row w) t _ _ _ (fresh l env event a w1)
            (prepared l env event a (env.new_id w.database.current)).2))

  -- the notification of a deposit that is settled goes through
  abbrev pub Notifies : Type 0
  Notifies = (calls : List World.Call) → env.notifies calls ≡ true

  -- Where all services answer, the notification too, nothing disturbs the lock, and no transaction has the event's hash or its
  -- reference, the event of a received deposit and then that of the swept one leave exactly one transaction more.
  -- It is saved as completed; one entry of the ledger was recorded for it and then committed, the lock was released
  -- twice, and the cached stage is the last one.
  pub received_then_swept-completes :
      (w : World l)
      → Unknown event w.database.current.transactions
      → find_one (has_reference l event.reference) w.database.current.transactions ≡ missing
      → Notifies
      → let w' =
          run_task l
            (process_deposit_swept_success l env event)
            (run_task l (process_deposit_success l env event) w) in
        (t : Transaction) × (request : LedgerRequest) × ((w'.database.saved.transactions
            ≡ w.database.current.transactions ++ (t ∷ []))
          × (t.status ≡ TransactionStatus.completed)
          × (t.external_reference ≡ some event.reference)
          × (w'.calls
              ≡ released
                ∷ World.staged "swept"
                ∷ World.committed t.ledger_transaction_id true
                ∷ acquired
                ∷ released
                ∷ World.staged "received"
                ∷ World.recorded request t.ledger_transaction_id
                ∷ acquired
                ∷ w.calls)
          × (l.get_state w'.store ≡ some "swept"))
  received_then_swept-completes w unknown unused all =
      let v = opened_world l env event a w in
      let w1 = taken l env event a w in
      let store = (l.acquire v.store).1 in
      let stage =
        l.stage_release (l.set_state "swept" store).1
        ∙ l.stage_set "swept" store (calm.cached "swept" store) in
      rw
        (run_task-ok l env event a (process_deposit_success l env event) w v
          (success-run l env event a w (calm.free w.store) unknown))
        (rw
          (run_task-ok l env event a (process_deposit_swept_success l env event) (opened_saved w)
            (closed_world w)
            (after-run w unused
              ∙ notify-true l env event a (closed_world w) (all (closed_world w).calls)))
          (
            completed l env event a (received_row l env event a w1),
            request_for l env event a (new_row l env event a w1),
            (refl, refl, refl, refl, stage),
          ))
