-- ===== src/Deposits/Initialize.antt =====
-- `_initialize_deposit_transaction` of services/deposits/tasks.py.
use looprail_backend.Prelude.{
  ℕ, Bool, false, not, none, some, String, [], ◌∷◌, str_eq, if◌then◌else◌,
}
use looprail_backend.Config
use looprail_backend.Config.{
  WalletEntry, AssetData, AssetKey, WalletKey, found, failed, get_asset,
  get_country_name_by_currency,
}
use looprail_backend.Database.{Database, save}
use looprail_backend.Transactions.{
  Transaction, CreateTransactionParams, Books, put_row, get_transaction_by_id,
}
use looprail_backend.Transactions.Create.{create_transaction}
use looprail_backend.Deposits.StageLock.{StageLock}
use looprail_backend.Deposits.World
use looprail_backend.Deposits.World.{
  Event, WalletRow, AssetRow, Lookup, missing, several, one, LedgerRequest, Call, Services, Refusal,
  Exception, Outcome, ok, refused, raised, World, same_text, hash_of, find_one, deposit_of,
  put_stage, is_completed, Action, pure, raise, released_world, refuse, require, ◌>>=◌, ◌>>◌,
}
use looprail_backend.Deposits.Params.{params_from_event}

module _ (l : StageLock) where
  -- the source's wallet and asset
  unfoldable pub resolve_source : Services → Event → Action l AssetData
  resolve_source env event =
      elim (Config.get_wallet env.wallets ((WalletKey.wallet_id, event.source_wallet_id) ∷ [])) [
        | failed e ↦ refuse World.no_source_wallet
        | found wallet ↦ elim (get_asset wallet ((AssetKey.asset_id, event.source_asset_id) ∷ [])) [
          | failed e ↦ refuse World.no_source_asset
          | found a ↦ pure a
        ]
      ]

  -- the id of the asset's balance, which must not be empty: `error` is not imported
  unfoldable pub balance_of : AssetRow → Action l String
  balance_of asset w = elim asset.ledger_balance_id [
    | none ↦ (raised World.name_error, released_world w)
    | some id ↦ if str_eq id "" then (raised World.name_error, released_world w) else (ok id, w)
  ]

  -- `transaction_usecase.create_transaction`
  unfoldable pub create_row : Services → CreateTransactionParams → Action l Transaction
  create_row env params w =
      let id = env.new_id w.database.current in
      let (created, db) = create_transaction env.accepts id params w.database in
      let w' : World l = record w { database = db } in
      elim created [ none ↦ refuse World.not_created w' | some row ↦ (ok row, w') ]

  -- the transaction with the event's hash, or a new one
  unfoldable pub find_or_create : Services → Event → CreateTransactionParams → Action l Transaction
  find_or_create env event params w =
      elim (find_one (λ t. same_text (hash_of t) event.hash) w.database.current.transactions) [
        | several ↦ (raised World.multiple_results, w)
        | one t ↦ (ok t, w)
        | missing ↦ create_row env params w
      ]

  -- the rows are written, or the lock is released where the database refuses them
  unfoldable pub flush_rows : Services → Books → Database Books → Action l (Unit {0})
  flush_rows env books db w =
      let (e, db') = save env.accepts books db in
      let w' : World l = record w { database = db' } in
      elim e [ none ↦ (ok tt, w') | some e' ↦ refuse World.not_updated w' ]

  -- the second flush, where the first one was refused and rolled back: the error is passed over
  unfoldable pub flush_again : Services → Transaction → Database Books → Action l (Unit {0})
  flush_again env t db w = elim (env.rewritten t db.current) [
    | none ↦ (raised World.expired_row, record w { database = db })
    | some books ↦ flush_rows env books db w
  ]

  -- The row that was changed is written, with the stage of its deposit if it has one: once for the
  -- deposit, and once for the row.
  unfoldable pub write_row : Services → Transaction → String → Action l (Unit {0})
  write_row env t stage w =
      let books : Books = record {
        transactions = put_row t w.database.current.transactions;
        details = put_stage t.id stage w.database.current.details;
      } in
      let (first, db) = save env.accepts books w.database in
      elim (deposit_of t.id w.database.current.details) [
        | none ↦ flush_rows env books w.database w
        | some f ↦ elim first [ none ↦ flush_rows env books db w | some e ↦ flush_again env t db w ]
      ]

  unfoldable pub call_record : Services → LedgerRequest → Action l String
  call_record env request w =
      let answer = env.record_transaction request w.calls in
      let w' : World l = record w { calls = World.recorded request answer ∷ w.calls } in
      elim answer [ none ↦ refuse World.not_recorded w' | some id ↦ (ok id, w') ]

  -- the row is read again, and written with the ledger's id and the event's reference
  unfoldable pub link_ledger : Services → Event → ℕ → String → Action l Transaction
  link_ledger env event id ledger_id w = elim (get_transaction_by_id id w.database) [
    | none ↦ (raised World.attribute_error, w)
    | some t ↦
        let t' : Transaction = record t {
          ledger_transaction_id = some ledger_id;
          external_reference = some event.reference;
        } in
        let (o, w') = write_row env t' "received" w in
        elim o [ ok u ↦ (ok t', w') | refused e ↦ (refused e, w') | raised x ↦ (raised x, w') ]
  ]

  abbrev pub has_ledger_id : Transaction → Bool
  has_ledger_id t = elim t.ledger_transaction_id [ none ↦ false | some id ↦ not (str_eq id "") ]

  -- the inflight entry of the ledger, unless the transaction has one
  unfoldable pub record_inflight :
      Services → Event → AssetData → AssetRow → String → Transaction → Action l Transaction
  record_inflight env event source asset balance t =
      if has_ledger_id t then pure t else elim (env.read_decimal event.amount) [
        | none ↦ λ w. (raised World.name_error, released_world w)
        | some amount ↦
            let request : LedgerRequest = record {
              amount = amount;
              source_asset_id = source.asset_id;
              currency = asset.symbol;
              destination = balance;
              reference = t.id;
            } in
            (do ledger_id ← call_record env request; link_ledger env event t.id ledger_id)
      ]

  -- the cached stage, whose error is passed over
  unfoldable pub cache_stage : String → Action l (Unit {0})
  cache_stage stage w = (
    ok tt,
    record w { store = (l.set_state stage w.store).1; calls = World.staged stage ∷ w.calls },
  )

  -- `_initialize_deposit_transaction`
  unfoldable pub initialize_deposit_transaction : Services → Event → Action l Transaction
  initialize_deposit_transaction env event = do
    source ← resolve_source env event
    wallet ← require World.no_wallet (env.find_wallet event.recipient_address)
    asset ← require World.no_asset (env.find_asset wallet.id source.asset_id)
    balance ← balance_of asset
    params ← (λ w. (params_from_event env event wallet asset, w))
    row ← find_or_create env event params
    t ← record_inflight env event source asset balance row
    cache_stage "received"
    pure t
