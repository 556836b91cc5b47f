-- ===== src/Webhook/Withdraw.antt =====
-- `handle_withdraw_success` of api/webhooks/handlers.py, with the lock "withdrawals". Its messages to the log are left out.
use looprail_backend.Prelude.{ℕ, Option, none, some, String, List, ◌∷◌, str_eq, if◌then◌else◌}
use looprail_backend.Database.{save}
use looprail_backend.Transactions.{Transaction, TransactionStatus, CryptoFields, Books, put_row}
use looprail_backend.Deposits.StageLock.{StageLock}
use looprail_backend.Deposits.World
use looprail_backend.Deposits.World.{
  Event, Lookup, missing, several, Call, released, Services, Outcome, raised, refused, World,
  find_one, Action, pure, raise, released_world, refuse, require, ◌>>=◌, ◌>>◌,
}
use looprail_backend.Deposits.Tasks.{acquire_lock, finish}

-- the columns of the chain of a row that has none
abbrev pub only_hash : String → CryptoFields
only_hash hash = record {
  transaction_hash = hash;
  block_hash = none;
  block_number = none;
  gas_price = none;
  gas_fee = none;
  gas_used = none;
  chain_id = none;
  confirmations = 0;
  destination_wallet_address = none;
  memo = none;
}

abbrev pub set_hash : Option CryptoFields → String → CryptoFields
set_hash none hash = only_hash hash
set_hash (some c) hash = record c { transaction_hash = hash }

-- `txn.transaction_hash = event.data.hash`, where there is one
abbrev pub with_hash : Option String → Transaction → Transaction
with_hash none t = t
with_hash (some hash) t =
    if str_eq hash "" then t else record t { chain = some (set_hash t.chain hash) }

abbrev pub ledger_id_of : Transaction → Option String
ledger_id_of t = elim t.ledger_transaction_id [
  | none ↦ none
  | some id ↦ if str_eq id "" then none else some id
]

module _ (l : StageLock) where
  -- the commit of the hold, if the transaction has one; its error is only logged
  unfoldable pub commit_if_held : Services → Option String → World l → World l
  commit_if_held env none w = w
  commit_if_held env (some id) w = record w {
    calls = World.committed (some id) (env.commit_inflight (some id) w.calls) ∷ w.calls;
  }

  -- the row as completed, whose error is passed over
  unfoldable pub save_completed : Services → Transaction → World l → World l
  save_completed env t w =
      let row : Transaction = record t { status = TransactionStatus.completed } in
      let books : Books = record {
        transactions = put_row row w.database.current.transactions;
        details = w.database.current.details;
      } in
      record w { database = (save env.accepts books w.database).1 }

  unfoldable pub complete_withdrawal : Services → Event → Transaction → Action l (Unit {0})
  complete_withdrawal env event t w =
      let row = with_hash event.hash t in
      finish l (save_completed env row (commit_if_held env (ledger_id_of row) w))

  -- `handle_withdraw_success`; `reference_of` is the reference of a row
  unfoldable pub handle_withdraw_success : Services → (ℕ → String) → Event → Action l (Unit {0})
  handle_withdraw_success env reference_of event = do
    acquire_lock l
    t ← (λ w.
        require World.no_transaction
          (find_one (λ t. str_eq (reference_of t.id) event.reference)
            w.database.current.transactions)
          w)
    complete_withdrawal env event t

  -- the call of the ledger in that handler, whatever its answer
  abbrev pub commit_calls : Services → Option String → List Call → List Call
  commit_calls env none calls = calls
  commit_calls env (some id) calls =
      World.committed (some id) (env.commit_inflight (some id) calls) ∷ calls

  abbrev completed_world : Services → Event → Transaction → World l → World l
  completed_world env event t w =
      let row = with_hash event.hash t in
      let done : Transaction = record row { status = TransactionStatus.completed } in
      record w {
        database = record {
          saved = w.database.saved;
          current = record {
            transactions = put_row done w.database.current.transactions;
            details = w.database.current.details;
          };
        };
        store = (l.release w.store).1;
        calls = released ∷ commit_calls env (ledger_id_of row) w.calls;
      }
