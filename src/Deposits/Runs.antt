-- ===== src/Deposits/Runs.antt =====
-- How the tasks of a deposit run where the lookups find what they look for and all services answer.
use looprail_backend.Prelude.{
  ℕ, ◌≡◌, ◌∙◌, ap, refl, false, none, some, String, List, [], ◌∷◌, ◌++◌, arith,
}
use looprail_backend.Database.{save}
use looprail_backend.Transactions
use looprail_backend.Transactions.{
  Transaction, TransactionStatus, Detail, deposit_detail, DepositFields, BaseTransactionParams,
  CreateTransactionParams, Books, find_row, put_row, get_transaction_by_id,
}
use looprail_backend.Transactions.Create.{
  prepare_transaction_data, detail_of, create_transaction_details, create_transaction,
}
use looprail_backend.Deposits.StageLock.{StageLock}
use looprail_backend.Deposits.World
use looprail_backend.Deposits.World.{
  Event, WalletRow, AssetRow, Lookup, missing, one, Call, Services, LedgerRequest, Refusal,
  Exception, Outcome, ok, refused, raised, World, Action, pure, refuse, require, ◌>>=◌, ◌>>◌,
  bind-ok, bind_then, find_one, same_text, hash_of, put_stage, deposit_of, matching,
}
use looprail_backend.Deposits.Answers.{Answers, find_row-append, put_row-append, require-run}
use looprail_backend.Deposits.Initialize.{
  resolve_source, balance_of, create_row, find_or_create, write_row, call_record, link_ledger,
  record_inflight, cache_stage, initialize_deposit_transaction, has_ledger_id, flush_rows,
}

module _ (l : StageLock) (env : Services) (event : Event) (a : Answers env event) where
  pub resolve_source-run : (w : World l) → resolve_source l env event w ≡ (ok a.source, w)
  unfolding resolve_source
  resolve_source-run w = ground (arith, a.entry_found, a.source_found)

  balance_of-run : (w : World l) → balance_of l a.asset w ≡ (ok a.balance, w)
  unfolding balance_of
  balance_of-run w = ground (arith, a.balance_there, a.balance_filled)

  abbrev pub new_row : World l → Transaction
  new_row w =
      prepare_transaction_data (env.new_id w.database.current)
        (Transactions.deposit a.base a.fields)

  -- the world once `t` is the new row
  abbrev pub with_row : World l → Transaction → List Detail → World l
  with_row w t details = record w {
    database = record {
      saved = w.database.saved;
      current = record {
        transactions = w.database.current.transactions ++ (t ∷ []);
        details = details;
      };
    };
  }

  abbrev pub new_details : World l → List Detail
  new_details w =
      w.database.current.details ++ (deposit_detail (env.new_id w.database.current) a.fields ∷ [])

  find_or_create-run :
      (w : World l)
      → find_one (λ t. same_text (hash_of t) event.hash) w.database.current.transactions ≡ missing
      → find_or_create l env event (Transactions.deposit a.base a.fields) w
        ≡ (ok (new_row w), with_row w (new_row w) (new_details w))
  unfolding find_or_create create_row create_transaction create_transaction_details detail_of save
  find_or_create-run w h =
      let books = w.database.current in
      let created : Books = record {
        transactions = books.transactions ++ (new_row w ∷ []);
        details = books.details;
      } in
      ground (
        arith,
        h,
        a.accepts_all created,
        a.accepts_all (record created { details = new_details w }),
      )

  abbrev pub request_for : Transaction → LedgerRequest
  request_for t = record {
    amount = a.amount;
    source_asset_id = a.source.asset_id;
    currency = a.asset.symbol;
    destination = a.balance;
    reference = t.id;
  }

  abbrev pub linked : Transaction → String → Transaction
  linked t ledger_id = record t {
    ledger_transaction_id = some ledger_id;
    external_reference = some event.reference;
  }

  pub write_row-run :
      (w : World l) (t : Transaction) (stage : String)
      → write_row l env t stage w ≡ (
        ok tt,
        record w {
          database = record {
            saved = w.database.saved;
            current = record {
              transactions = put_row t w.database.current.transactions;
              details = put_stage t.id stage w.database.current.details;
            };
          };
        },
      )
  unfolding write_row flush_rows save
  write_row-run w t stage =
      let books : Books = record {
        transactions = put_row t w.database.current.transactions;
        details = put_stage t.id stage w.database.current.details;
      } in
      ground (arith, a.accepts_all books)

  -- the row is the last one, and no other has its id
  link_ledger-run :
      (w : World l) (t : Transaction) (details : List Detail) (calls : List Call) (id : String)
      → find_row t.id w.database.current.transactions ≡ none
      → link_ledger l env event t.id id (record (with_row w t details) { calls = calls }) ≡ (
        ok (linked t id),
        record (with_row w (linked t id) (put_stage t.id "received" details)) { calls = calls },
      )
  unfolding link_ledger get_transaction_by_id
  link_ledger-run w t details calls id fresh =
      let w' : World l = record (with_row w t details) { calls = calls } in
      let rows = w.database.current.transactions in
      ground (
        arith,
        find_row-append t.id rows t fresh refl,
        put_row-append rows (linked t id) t fresh refl,
        write_row-run w' (linked t id) "received",
      )

  abbrev pub recording : World l → Transaction → List Call
  recording w t =
      World.recorded (request_for t) (some (a.ledger_id (request_for t) w.calls)) ∷ w.calls

  call_record-run :
      (w : World l) (t : Transaction)
      → call_record l env (request_for t) w
        ≡ (ok (a.ledger_id (request_for t) w.calls), record w { calls = recording w t })
  unfolding call_record
  call_record-run w t = ground (arith, a.recorded_all (request_for t) w.calls)

  record_inflight-run :
      (w : World l) (t : Transaction) (details : List Detail)
      → find_row t.id w.database.current.transactions ≡ none
      → has_ledger_id l t ≡ false
      → let id = a.ledger_id (request_for t) w.calls in
        record_inflight l env event a.source a.asset a.balance t (with_row w t details) ≡ (
          ok (linked t id),
          record (with_row w (linked t id) (put_stage t.id "received" details)) {
            calls = recording w t;
          },
        )
  unfolding record_inflight
  record_inflight-run w t details fresh unlinked =
      let id = a.ledger_id (request_for t) w.calls in
      rw (unlinked, a.amount_read)
        (bind-ok _ _ _ _ _ (call_record-run (with_row w t details) t)
          ∙ link_ledger-run w t details (recording w t) id fresh)

  pub prepared :
      (id : ℕ)
      → let t = prepare_transaction_data id (Transactions.deposit a.base a.fields) in
        (t.id ≡ id)
        × (has_ledger_id l t ≡ false)
        × (t.status ≡ TransactionStatus.pending)
        × (hash_of t ≡ none)
  unfolding prepare_transaction_data
  prepared id = (refl, refl, refl, refl)

  -- the new row as `_initialize_deposit_transaction` leaves it
  abbrev pub received_row : World l → Transaction
  received_row w = linked (new_row w) (a.ledger_id (request_for (new_row w)) w.calls)

  abbrev pub received_world : World l → World l
  received_world w =
      record (with_row w (received_row w) (put_stage (new_row w).id "received" (new_details w))) {
        store = (l.set_state "received" w.store).1;
        calls = World.staged "received" ∷ recording w (new_row w);
      }

  -- the end of the initialization
  cache_stage-run :
      (t : Transaction) (stage : String) (w : World l)
      → (cache_stage l stage >> pure t) w ≡ (
        ok t,
        record w { store = (l.set_state stage w.store).1; calls = World.staged stage ∷ w.calls },
      )
  unfolding cache_stage ◌>>=◌
  cache_stage-run t stage w = refl

  pub initialize-run :
      (w : World l)
      → find_one (λ t. same_text (hash_of t) event.hash) w.database.current.transactions ≡ missing
      → initialize_deposit_transaction l env event w ≡ (ok (received_row w), received_world w)
  unfolding initialize_deposit_transaction
  initialize-run w h =
      let books = w.database.current in
      let p = prepared (env.new_id books) in
      let fresh : find_row (new_row w).id books.transactions ≡ none =
        ap (λ id. find_row id books.transactions) p.0 ∙ a.id_fresh books in
      bind_then _ _ _ _ _ _ (resolve_source-run w) (
        bind_then _ _ _ _ _ _ (require-run World.no_wallet _ _ w a.wallet_found) (
          bind_then _ _ _ _ _ _ (require-run World.no_asset _ _ w a.asset_found) (
            bind_then _ _ _ _ _ _ (balance_of-run w) (
              bind_then _ _ _ _ _ _ (ap (λ o. (o, w)) a.params_valid) (
                bind_then _ _ _ _ _ _ (find_or_create-run w h) (
                  bind_then _ _ _ _ _ _
                    (record_inflight-run w (new_row w) (new_details w) fresh p.1)
                    (cache_stage-run _ _ _)))))))
