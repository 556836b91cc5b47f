-- ===== src/Transactions.antt =====
-- The records of transactions: dtos/transaction_dtos.py, models/transaction_model.py and
-- usecases/transaction_usecases.py. A UUID is a number, an enumeration its value, and the columns of the
-- chain stand together, as the code sets them together.
pub mod Create
pub mod Handlers
pub mod Records
mod Tests
use looprail_backend.Prelude.{
  ℕ, Bool, true, false, Option, none, some, String, List, [], ◌∷◌, ◌==◌, if◌then◌else◌,
}
use looprail_backend.Database.{Database, DatabaseError, not_found, save}
use looprail_backend.Decimal.{Decimal}

pub record BaseTransactionParams : Type 0 where
  pub wallet_id : ℕ
  pub asset_id : ℕ
  pub transaction_type : String
  pub payment_type : String
  pub method : String
  pub currency : String
  pub sender : String
  pub receiver : String
  pub amount : Decimal
  pub narration : Option String
  pub fee : Option Decimal
  pub network : Option String
  pub metadata : List (String × String)
  pub country : Option String
  pub session_id : Option ℕ

-- the fields that `CryptoTransactionParams` adds
pub record CryptoFields : Type 0 where
  pub transaction_hash : String
  pub block_hash : Option String
  pub block_number : Option ℕ
  pub gas_price : Option String
  pub gas_fee : Option String
  pub gas_used : Option String
  pub chain_id : Option ℕ
  pub confirmations : ℕ
  pub destination_wallet_address : Option String
  pub memo : Option String

-- the fields that `WalletTransferParams` adds to those
pub record WalletFields : Type 0 where
  pub wallet_address : String
  pub address_verified : Bool
  pub contract_address : Option String

pub record BankFields : Type 0 where
  pub bank_code : String
  pub bank_name : String
  pub account_number : String
  pub account_name : String
  pub provider : String
  pub external_reference : Option String
  pub rate : Option Decimal

pub record InternalFields : Type 0 where
  pub recipient_user_id : String
  pub recipient_asset_id : String
  pub transfer_type : String

pub record DepositFields : Type 0 where
  pub source_type : String
  pub source_reference : Option String
  pub provider : Option String
  pub provider_reference : Option String
  pub deposit_stage : String

-- `CreateTransactionParams`. A `WalletTransferParams` is a `CryptoTransactionParams` as well.
pub data CreateTransactionParams : Type 0 where
  crypto : BaseTransactionParams → CryptoFields → CreateTransactionParams
  wallet_transfer : BaseTransactionParams → CryptoFields → WalletFields → CreateTransactionParams
  bank_transfer : BaseTransactionParams → BankFields → CreateTransactionParams
  internal_transfer : BaseTransactionParams → InternalFields → CreateTransactionParams
  deposit : BaseTransactionParams → DepositFields → CreateTransactionParams

abbrev pub base_of : CreateTransactionParams → BaseTransactionParams
base_of (crypto b c) = b
base_of (wallet_transfer b c w) = b
base_of (bank_transfer b f) = b
base_of (internal_transfer b f) = b
base_of (deposit b f) = b

-- `destination_data`
pub data DestinationData : Type 0 where
  no_destination : DestinationData
  to_wallet : String → Option String → DestinationData
  to_user : String → String → String → DestinationData
  from_source : String → Option String → Option String → DestinationData

pub data TransactionStatus : Type 0 where
  pending completed processing failed : TransactionStatus

-- a row of `Transaction`
pub record Transaction : Type 0 where
  pub id : ℕ
  pub base : BaseTransactionParams
  pub receiver : String
  pub network : Option String
  pub status : TransactionStatus
  pub chain : Option CryptoFields
  pub destination_data : DestinationData
  pub external_reference : Option String
  pub ledger_transaction_id : Option String
  pub error_message : Option String

-- the columns of `BankTransferDetail` for the order at the payment provider
pub record PaycrestOrder : Type 0 where
  pub txn_id : Option String
  pub status : Option String

-- a row of a detail table, with its `transaction_id`
pub data Detail : Type 0 where
  bank_detail : ℕ → BankFields → Option ℕ → PaycrestOrder → Detail
  wallet_detail : ℕ → WalletFields → Option String → Option String → Detail
  internal_detail : ℕ → InternalFields → Detail
  deposit_detail : ℕ → DepositFields → Detail

pub record Books : Type 0 where
  pub transactions : List Transaction
  pub details : List Detail

abbrev pub find_row : ℕ → List Transaction → Option Transaction
find_row id [] = none
find_row id (t ∷ ts) = let rest = find_row id ts in if t.id == id then some t else rest

abbrev pub put_row : Transaction → List Transaction → List Transaction
put_row t [] = []
put_row t (r ∷ rows) = let rest = put_row t rows in if r.id == t.id then t ∷ rest else r ∷ rest

-- `get_transaction_by_id`
unfoldable pub get_transaction_by_id : ℕ → Database Books → Option Transaction
get_transaction_by_id id db = find_row id db.current.transactions

-- `repo.update`, of a row that was changed
unfoldable pub update_row :
    (Books → Bool) → Transaction → Database Books → Option DatabaseError × Database Books
update_row accepts t db =
    save accepts
      (record { transactions = put_row t db.current.transactions; details = db.current.details }) db

abbrev pub or_else : Option String → Option String → Option String
or_else none old = old
or_else (some new) old = some new

-- `update_transaction_status`; a message that is not empty is kept
unfoldable pub update_transaction_status :
    (Books → Bool)
    → ℕ
    → TransactionStatus
    → Option String
    → Database Books
    → Option DatabaseError × Database Books
update_transaction_status accepts id status message db = elim (get_transaction_by_id id db) [
  | none ↦ (some not_found, db)
  | some t ↦
      let changed : Transaction = record t {
        status = status;
        error_message = or_else message t.error_message;
      } in
      update_row accepts changed db
]

-- `update_transaction_fee`
unfoldable pub update_transaction_fee :
    (Books → Bool) → ℕ → Decimal → Database Books → Option DatabaseError × Database Books
update_transaction_fee accepts id fee db = elim (get_transaction_by_id id db) [
  | none ↦ (some not_found, db)
  | some t ↦
      let base : BaseTransactionParams = record t.base { fee = some fee } in
      let changed : Transaction = record t { base = base } in update_row accepts changed db
]
