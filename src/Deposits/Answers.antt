-- ===== src/Deposits/Answers.antt =====
-- Services that answer every call of a deposit's tasks, and a list of rows with a new one at its end.
use looprail_backend.Prelude.{
  ◌≡◌, ap, true, false, Option, none, some, String, List, [], ◌∷◌, ◌++◌, arith, str_eq,
}
use looprail_backend.Config
use looprail_backend.Config.{WalletEntry, AssetData, AssetKey, WalletKey, found, get_asset}
use looprail_backend.Decimal.{Decimal}
pub use looprail_backend.Transactions.Records.{find_row-append}
use looprail_backend.Transactions
use looprail_backend.Transactions.{
  Transaction, TransactionStatus, Detail, deposit_detail, DepositFields, BaseTransactionParams,
  CreateTransactionParams, Books, find_row, put_row, get_transaction_by_id,
}
use looprail_backend.Deposits.StageLock.{StageLock}
use looprail_backend.Deposits.World.{
  Event, WalletRow, AssetRow, Lookup, one, Call, Services, LedgerRequest, Refusal, ok, World,
  require,
}
use looprail_backend.Deposits.Params.{params_from_event}

-- the lookups find one result each, the database takes every write, and the ledger every request
pub record Answers (env : Services) (event : Event) : Type 0 where
  pub entry : WalletEntry
  pub source : AssetData
  pub wallet : WalletRow
  pub asset : AssetRow
  pub balance : String
  pub amount : Decimal
  pub base : BaseTransactionParams
  pub fields : DepositFields
  pub entry_found :
      Config.get_wallet env.wallets ((WalletKey.wallet_id, event.source_wallet_id) ∷ [])
      ≡ found entry
  pub source_found :
      get_asset entry ((AssetKey.asset_id, event.source_asset_id) ∷ []) ≡ found source
  pub wallet_found : env.find_wallet event.recipient_address ≡ one wallet
  pub asset_found : env.find_asset wallet.id source.asset_id ≡ one asset
  pub balance_there : asset.ledger_balance_id ≡ some balance
  pub balance_filled : str_eq balance "" ≡ false
  pub amount_read : env.read_decimal event.amount ≡ some amount
  pub params_valid :
      params_from_event env event wallet asset ≡ ok (Transactions.deposit base fields)
  pub id_fresh : (b : Books) → find_row (env.new_id b) b.transactions ≡ none
  pub accepts_all : (b : Books) → env.accepts b ≡ true
  pub ledger_id : LedgerRequest → List Call → String
  pub recorded_all :
      (r : LedgerRequest) (cs : List Call) → env.record_transaction r cs ≡ some (ledger_id r cs)
  pub committed_all : (id : Option String) (cs : List Call) → env.commit_inflight id cs ≡ true

pub put_row-append :
    (rows : List Transaction) (t old : Transaction)
    → find_row t.id rows ≡ none
    → old.id ≡ t.id
    → put_row t (rows ++ (old ∷ [])) ≡ rows ++ (t ∷ [])
put_row-append [] t old h e = ground arith
put_row-append (r ∷ rows) t old h e =
    ground (arith, λ (k : find_row t.id rows ≡ none). put_row-append rows t old k e)

pub require-run :
    {l : StageLock} {A : Type 0} (why : Refusal) (o : Lookup A) (x : A) (w : World l)
    → o ≡ one x
    → require why o w ≡ (ok x, w)
require-run why o x w h = ap (λ r. require why r w) h
