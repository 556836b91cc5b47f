-- ===== src/Deposits/Settling.antt =====
-- What the tasks of a deposit leave behind where all services answer: each event once, and an event twice.
use looprail_backend.Prelude.{◌≡◌, refl, true, false, Option, none, String, List, ◌∷◌, arith}
use looprail_backend.Transactions.{
  Transaction, TransactionStatus, Detail, find_row, get_transaction_by_id,
}
use looprail_backend.Deposits.StageLock.{StageLock}
use looprail_backend.Deposits.World
use looprail_backend.Deposits.World.{
  Event, Lookup, missing, one, Call, acquired, released, Services, Outcome, ok, refused, raised,
  World, Action, pure, ◌>>=◌, ◌>>◌, bind_then, find_one, same_text, hash_of, put_stage, matching,
  is_completed, refuse, require,
}
use looprail_backend.Deposits.Initialize.{cache_stage, initialize_deposit_transaction}
use looprail_backend.Deposits.Tasks.{
  finish, fetch_or_initialize, is_received, call_commit, complete_row, check_amount, settle, notify,
}
use looprail_backend.Deposits.Answers.{Answers, find_row-append, put_row-append}
use looprail_backend.Deposits.Runs.{resolve_source-run, write_row-run, with_row}

module _ (l : StageLock) (env : Services) (event : Event) (a : Answers env event) where
  abbrev pub completed : Transaction → Transaction
  completed t = record t { status = TransactionStatus.completed }

  -- a world with a new last row, and the rest of it
  abbrev pub state_of : World l → Transaction → List Detail → l.Store → List Call → World l
  state_of w t details store calls = record (with_row l env event a w t details) {
    store = store;
    calls = calls;
  }

  check_amount-run : (w : World l) → check_amount l env event w ≡ (ok tt, w)
  unfolding check_amount
  check_amount-run w = ground (arith, a.amount_read)

  call_commit-run :
      (id : Option String) (w : World l)
      → call_commit l env id w ≡ (ok tt, record w { calls = World.committed id true ∷ w.calls })
  unfolding call_commit
  call_commit-run id w = ground (arith, a.committed_all id w.calls)

  complete_row-run :
      (w : World l) (t : Transaction) (details : List Detail) (store : l.Store) (calls : List Call)
      → find_row t.id w.database.current.transactions ≡ none
      → complete_row l env t.id (state_of w t details store calls)
        ≡ (ok tt, state_of w (completed t) (put_stage t.id "swept" details) store calls)
  unfolding complete_row get_transaction_by_id
  complete_row-run w t details store calls fresh =
      let rows = w.database.current.transactions in
      ground (
        arith,
        find_row-append t.id rows t fresh refl,
        put_row-append rows (completed t) t fresh refl,
        write_row-run l env event a (state_of w t details store calls) (completed t) "swept",
      )

  abbrev pub settled_world : World l → Transaction → List Detail → l.Store → List Call → World l
  settled_world w t details store calls =
      state_of w (completed t) (put_stage t.id "swept" details)
        (l.release (l.set_state "swept" store).1).1
        (released ∷ World.staged "swept" ∷ World.committed t.ledger_transaction_id true ∷ calls)

  -- the end of the settlement
  cache_finish-notify-run :
      (w : World l)
      → (cache_stage l "swept" >> (finish l >> notify l env)) w
        ≡ notify l env (record w {
          store = (l.release (l.set_state "swept" w.store).1).1;
          calls = released ∷ World.staged "swept" ∷ w.calls;
        })
  unfolding cache_stage finish ◌>>=◌
  cache_finish-notify-run w = refl

  pub settle-run :
      (w : World l) (t : Transaction) (details : List Detail) (store : l.Store) (calls : List Call)
      → find_row t.id w.database.current.transactions ≡ none
      → settle l env event t (state_of w t details store calls)
        ≡ notify l env (settled_world w t details store calls)
  unfolding settle
  settle-run w t details store calls fresh = bind_then _ _ _ _ _ _ (check_amount-run _) (
      bind_then _ _ _ _ _ _ (resolve_source-run l env event a _) (
        bind_then _ _ _ _ _ _ (call_commit-run t.ledger_transaction_id _) (
          bind_then _ _ _ _ _ _ (complete_row-run w t details store _ fresh)
            (cache_finish-notify-run _))))

  -- the world after the lock was taken
  abbrev pub taken : World l → World l
  taken w = record w { store = (l.acquire w.store).1; calls = acquired ∷ w.calls }

  pub fetch-initializes :
      (w : World l)
      → is_received l (l.get_state w.store) ≡ false
      → fetch_or_initialize l env event w ≡ initialize_deposit_transaction l env event w
  unfolding fetch_or_initialize
  fetch-initializes w h = rw h refl
