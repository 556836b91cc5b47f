-- ===== src/Deposits/Params.antt =====
-- `create_transaction_params_from_event` of utils/transaction_utils.py, for a credit.
use looprail_backend.Prelude.{
  Bool, false, ◌||◌, Option, none, some, String, [], str_eq, if◌then◌else◌,
}
use looprail_backend.Prelude.Text.{same_lower}
use looprail_backend.Config.{get_country_name_by_currency}
use looprail_backend.Decimal
use looprail_backend.Decimal.{Decimal, of_ℕ}
use looprail_backend.Transactions
use looprail_backend.Transactions.{
  Transaction, TransactionStatus, Detail, DepositFields, BaseTransactionParams,
  CreateTransactionParams, Books, put_row, get_transaction_by_id,
}
use looprail_backend.Deposits.World
use looprail_backend.Deposits.World.{
  Event, WalletRow, AssetRow, Lookup, missing, several, one, LedgerRequest, Call, Services, Refusal,
  Exception, Outcome, ok, refused, raised, World, same_text, hash_of, find_one, deposit_of,
  put_stage, is_completed, Action, pure, raise, released_world, refuse, require, ◌>>=◌, ◌>>◌,
}

-- the fee, where there is one: `none` is a text that is not a decimal
abbrev pub read_fee : Services → Event → Option (Option Decimal)
read_fee env event = elim event.fee [
  | none ↦ some none
  | some text ↦
      if str_eq text ""
      then some none
      else elim (env.read_decimal text) [ none ↦ none | some fee ↦ some (some fee) ]
]

-- one of the values of `Currency`, in any case
abbrev pub is_currency : String → Bool
is_currency c = same_lower c "ngn" || same_lower c "usd" || same_lower c "usdc"

-- Field(gt=0) and Field(ge=0)
abbrev pub is_valid_amount : Decimal → Option Decimal → Bool
is_valid_amount amount fee = elim fee [
  | none ↦ Decimal.lt (of_ℕ 0) amount
  | some f ↦ if Decimal.lt f (of_ℕ 0) then false else Decimal.lt (of_ℕ 0) amount
]

-- `create_transaction_params_from_event` for a credit: the hash, the status and the reference that it
-- passes are no fields of `DepositParams`
unfoldable pub params_from_event :
    Services → Event → WalletRow → AssetRow → Outcome CreateTransactionParams
params_from_event env event wallet asset = elim (env.read_decimal event.amount) [
  | none ↦ raised World.invalid_operation
  | some amount ↦ elim (read_fee env event) [
    | none ↦ raised World.invalid_operation
    | some fee ↦
        let base : BaseTransactionParams = record {
          wallet_id = wallet.id;
          asset_id = asset.id;
          transaction_type = "credit";
          payment_type = "credit";
          method = "blockchain";
          currency = event.currency;
          sender = event.sender_address;
          receiver = wallet.owner;
          amount = amount;
          narration = some event.narration;
          fee = fee;
          network = none;
          metadata = [];
          country = get_country_name_by_currency env.countries event.currency;
          session_id = event.session_id;
        } in
        let fields : DepositFields = record {
          source_type = "blockchain";
          source_reference = some event.sender_address;
          provider = some "blockradar";
          provider_reference = none;
          deposit_stage = "received";
        } in
        if is_currency event.currency
        then (if is_valid_amount amount fee
            then ok (Transactions.deposit base fields)
            else raised World.validation_error)
        else raised World.validation_error
  ]
]
