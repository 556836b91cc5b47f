-- ===== src/Withdrawal/World.antt =====
-- The data of a withdrawal, the services that it calls and the record of those calls.
use looprail_backend.Prelude.{ℕ, Bool, true, false, Option, none, some, String, List, ◌∷◌, ℤ}
use looprail_backend.Config.{WalletEntry, BanksData, CountriesData}
use looprail_backend.Decimal.{Decimal}

pub data Currency : Type 0 where
  naira us_dollar usdc : Currency

-- the values of `Currency`
abbrev pub currency_value : Currency → String
currency_value naira = "ngn"
currency_value us_dollar = "usd"
currency_value usdc = "usdc"

pub data WithdrawalMethod : Type 0 where
  bank_transfer external_wallet : WithdrawalMethod

-- `BankTransferData`, whose name of the bank is not used
pub record BankTransferData : Type 0 where
  pub bank_code : String
  pub account_number : String
  pub account_name : String

-- `TransferType.data`, as far as `model_validate` takes it
pub data TransferData : Type 0 where
  bank_data : BankTransferData → TransferData
  wallet_data : String → TransferData
  malformed : TransferData

pub record WithdrawalRequest : Type 0 where
  pub amount : Decimal
  pub currency : Currency
  pub narration : String
  pub method : WithdrawalMethod
  pub transfer : TransferData
  pub ip_address : Option String

pub record UserWallet : Type 0 where
  pub id : String
  pub address : String

pub record Asset : Type 0 where
  pub asset_id : String
  pub address : String
  pub ledger_balance_id : Option String
  pub symbol : String
  pub precision : ℕ

-- `BalanceResponse`, in minor units
pub record Balances : Type 0 where
  pub balance : ℤ
  pub inflight_debit_balance : ℤ
  pub queued_debit_balance : ℤ

pub data TransactionStatus : Type 0 where
  completed pending processing failed : TransactionStatus

-- `BankTransferParams` and `WalletTransferParams`, the parts that differ
pub data TransferParams : Type 0 where
  bank_params : BankTransferData → String → Option Decimal → TransferParams
  wallet_params : String → TransferParams

pub record TransactionParams : Type 0 where
  pub amount : Decimal
  pub fee : Decimal
  pub currency : Currency
  pub country : Option String
  pub details : TransferParams

pub record Transaction : Type 0 where
  pub id : String
  pub reference : String
  pub wallet_id : String
  pub ledger_transaction_id : Option String

pub data WorldLedger : Type 0 where
  world_out platform_fees : WorldLedger

-- `RecordTransactionRequest` with `inflight=True`
pub record LedgerRequest : Type 0 where
  pub amount : ℤ
  pub source : Option String
  pub reference : String
  pub destinations : List (WorldLedger × ℤ)

-- `NetworkFeeResponse`: an error, a response without data, or the fee
pub data NetworkFee : Type 0 where
  fee_error no_data : NetworkFee
  fee : String → NetworkFee

-- `WithdrawalResponse`: an error, a response without data, or the transaction, whose hash may be missing
pub data Transfer : Type 0 where
  transfer_error no_transfer_data : Transfer
  sent : Option String → Transfer

-- a call of another component, with its answer where the caller goes on by it
pub data Event : Type 0 where
  wallet_read asset_read rate_read location_read fee_read user_read transaction_read : Event
  balance_read : String → Option Balances → Event
  transaction_created : TransactionParams → Bool → Event
  hold_recorded : LedgerRequest → Option String → Event
  transaction_saved : Transaction → Bool → Event
  hold_voided hold_committed : Option String → Bool → Event
  status_updated : String → TransactionStatus → Bool → Event
  fee_updated : String → String → Event
  order_created : Decimal → String → Option String → Event
  details_saved : String → Bool → Event
  hash_saved : String → String → Event
  master_transferred : Decimal → String → Transfer → Event
  wallet_transferred : String → Decimal → String → Transfer → Event

-- the calls so far, the latest first
abbrev pub Trace : Type 0
Trace = List Event

-- The answers of the repositories and services, each of which may depend on all calls before.
pub record Services : Type 0 where
  pub get_wallet : Trace → Option UserWallet
  pub get_asset : Trace → Option Asset
  -- `fetch_letest_usdc_rate`: no response, or a response with or without a sell rate
  pub fetch_rate : Decimal → Trace → Option (Option Decimal)
  pub get_balance : String → Trace → Option Balances
  pub create_transaction : TransactionParams → Trace → Option Transaction
  pub record_transaction : LedgerRequest → Trace → Option String
  pub save_transaction : Transaction → Trace → Bool
  pub void_inflight : Option String → Trace → Bool
  pub commit_inflight : Option String → Trace → Bool
  pub update_status : String → TransactionStatus → Trace → Bool
  pub network_fee : Trace → NetworkFee
  -- `transaction_usecase.get_transaction_by_id`, the user and the transaction's bank details
  pub get_transaction : String → Trace → Option Transaction
  pub get_user : Trace → Bool
  pub find_transaction : String → Trace → Option Bool
  -- the order's id and address
  pub create_order : Decimal → Trace → Option (String × String)
  pub save_details : String → Trace → Bool
  -- a transfer from the master wallet, and one from the user's
  pub master_transfer : Decimal → String → Trace → Transfer
  pub wallet_transfer : String → Decimal → String → Trace → Transfer
  pub wallet_config : WalletEntry
  pub wallets : List WalletEntry
  pub countries : CountriesData
  pub banks_data : BanksData

pub data Failure : Type 0 where
  no_wallet no_asset : Failure
  below_minimum : Failure
  no_balance no_conversion_rate insufficient_balance : Failure
  self_transfer : Failure
  transaction_not_recorded hold_not_recorded : Failure
  transaction_not_updated : Failure
  no_rate no_network_fee : Failure
  no_transaction no_user no_ledger_id : Failure
  not_committed status_not_updated : Failure
  no_country no_institution no_conversion : Failure
  order_failed details_not_found details_not_updated master_transfer_failed : Failure
  no_blockrader_asset wallet_transfer_failed : Failure

pub data Exception : Type 0 where
  arithmetic_error validation_error unbound_local_error attribute_error : Exception
  -- an AttributeError at the reply of a transfer that was taken
  reply_without_data : Exception

pub data Outcome (A : Type 0) : Type 0 where
  ok : A → Outcome A
  err : Failure → Outcome A
  raised : Exception → Outcome A

-- an asynchronous method: it makes calls, and returns, returns an error or raises
abbrev pub Action : Type 0 → Type 0
Action A = Trace → Outcome A × Trace

abbrev pub is_some : {A : Type 0} → Option A → Bool
is_some none = false
is_some (some _) = true

module _ {A : Type 0} where
  abbrev pub pure : A → Action A
  pure a t = (ok a, t)

  abbrev pub lift : Outcome A → Action A
  lift o t = (o, t)

  abbrev pub fail : Failure → Action A
  fail e t = (err e, t)

  abbrev pub raise : Exception → Action A
  raise e t = (raised e, t)

  -- a call whose answer is `answer`, noted as `event`
  abbrev pub call : (Trace → A) → (A → Event) → Action A
  call answer event t = (ok (answer t), event (answer t) ∷ t)

  abbrev pub or_fail : Failure → Option A → Action A
  or_fail e none = fail e
  or_fail e (some a) = pure a

infixl 5 ◌>>=◌ ◌>>◌
abbrev pub ◌>>=◌ : {A B : Type 0} → Action A → (A → Action B) → Action B
◌>>=◌ m f t =
    let (o, t') = m t in elim o [ ok a ↦ f a t' | err e ↦ (err e, t') | raised x ↦ (raised x, t') ]

abbrev pub ◌>>◌ : {A B : Type 0} → Action A → Action B → Action B
m >> k = m >>= λ _. k

abbrev pub check : Bool → Failure → Action (Unit {0})
check true e = pure tt
check false e = fail e
