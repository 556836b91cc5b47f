-- ===== src/Withdrawal/Initiate.antt =====
-- `WalletManagerUsecase.initiate_withdrawal`: the checks, the local transaction, the hold on the
-- ledger, and the quotes behind it.
use looprail_backend.Prelude.{
  Bool, Option, none, some, String, List, [], ◌∷◌, ℤ, ◌-ℤ◌, str_eq, if◌then◌else◌,
}
use looprail_backend.Config.{AssetKey, found, failed, get_asset}
use looprail_backend.Decimal
use looprail_backend.Decimal.{Decimal}
use looprail_backend.Withdrawal.World.{
  WithdrawalRequest, UserWallet, Asset, TransactionStatus, TransactionParams, Transaction,
  WorldLedger, world_out, platform_fees, LedgerRequest, NetworkFee, Services, wallet_read,
  asset_read, rate_read, fee_read, transaction_created, hold_recorded, transaction_saved,
  hold_voided, status_updated, fee_updated, no_wallet, no_asset, transaction_not_recorded,
  hold_not_recorded, no_rate, no_network_fee, validation_error, unbound_local_error,
  attribute_error, Outcome, ok, err, raised, Action, pure, lift, fail, raise, call, or_fail,
  is_some, ◌>>=◌, ◌>>◌,
}
use looprail_backend.Withdrawal.Amounts.{zero_fee, RateResponse, fetch_if_needed, check_amounts}
use looprail_backend.Withdrawal.Balance.{Needed, minor_units, check_balance}
use looprail_backend.Withdrawal.Params.{check_destination, read_location, build_params}

-- `destinations` where a fee is taken, and otherwise the one `destination` with the whole amount
unfoldable pub destinations_of :
    WithdrawalRequest → Asset → Decimal → ℤ → Option Decimal → List (WorldLedger × ℤ)
unfolding minor_units
destinations_of req asset fee total rate =
    let item = minor_units req.amount rate asset in
    let fee_amount : ℤ = elim rate [ none ↦ minor_units fee none asset | some _ ↦ total -ℤ item ] in
    if Decimal.lt zero_fee fee
    then (world_out, item) ∷ (platform_fees, fee_amount) ∷ []
    else (world_out, total) ∷ []

unfoldable pub ledger_request :
    WithdrawalRequest → Asset → Decimal → ℤ → Option Decimal → Transaction → LedgerRequest
ledger_request req asset fee total rate txn = record {
  amount = total;
  source = asset.ledger_balance_id;
  reference = txn.reference;
  destinations = destinations_of req asset fee total rate;
}

-- `update_transaction_status` to FAILED, whose own error is ignored
unfoldable pub mark_failed : Services → String → Action Bool
mark_failed env id =
    call (env.update_status id TransactionStatus.failed)
      (status_updated id TransactionStatus.failed)

-- `update_inflight_transaction` with "void"
unfoldable pub void_hold : Services → Option String → Action Bool
void_hold env id = call (env.void_inflight id) (hold_voided id)

-- Stores the ledger's id with the transaction. Where that fails the hold is voided, and the test of
-- `void_err`, a pair, reads its `message`, which a pair does not have.
unfoldable pub link_hold : Services → Transaction → String → Action Transaction
unfolding void_hold
link_hold env txn ledger_id = do
  let linked : Transaction = record txn { ledger_transaction_id = some ledger_id }
  saved ← call (env.save_transaction linked) (transaction_saved linked)
  if saved then pure linked else (do void_hold env (some ledger_id); raise attribute_error)

-- The hold on the ledger. Without a balance check there is no `total_needed_minor` to read.
unfoldable pub reserve :
    Services → WithdrawalRequest → Asset → Decimal → Needed → Transaction → Action Transaction
reserve env req asset fee none txn = raise unbound_local_error
reserve env req asset fee (some (total, rate)) txn = do
  let request = ledger_request req asset fee total rate txn
  answer ← call (env.record_transaction request) (hold_recorded request)
  elim answer [
    | none ↦ do mark_failed env txn.id; fail hold_not_recorded
    | some ledger_id ↦ link_hold env txn ledger_id
  ]

-- the rate, without which the transaction fails and the hold is voided
unfoldable pub require_rate : Services → WithdrawalRequest → Transaction → Action (Unit {0})
unfolding mark_failed void_hold
require_rate env req txn = do
  rate ← call (env.fetch_rate req.amount) (λ _. rate_read)
  elim rate [
    | none ↦ do mark_failed env txn.id; void_hold env txn.ledger_transaction_id; fail no_rate
    | some _ ↦ pure tt
  ]

-- `str(asset.asset_id)` in the wallet's configuration, with an id at the provider
unfoldable pub require_provider_asset : Services → Asset → Outcome String
require_provider_asset env asset =
    elim (get_asset env.wallet_config ((AssetKey.asset_id, asset.asset_id) ∷ [])) [
      | failed e ↦ err no_network_fee
      | found a ↦ elim a.blockrader_asset_id [ none ↦ raised validation_error | some id ↦ ok id ]
    ]

-- the provider's fee, which replaces the one of the transaction
unfoldable pub quote_network_fee : Services → Transaction → Action (Unit {0})
unfolding mark_failed
quote_network_fee env txn = do
  answer ← call env.network_fee (λ _. fee_read)
  elim answer [
    | NetworkFee.fee_error ↦ do mark_failed env txn.id; fail no_network_fee
    | NetworkFee.no_data ↦ raise attribute_error
    | NetworkFee.fee f ↦ if str_eq f "" then pure tt else call (λ _. tt) (λ _. fee_updated txn.id f)
  ]

-- from the hold on; the result is the transaction's id
unfoldable pub hold_and_quote :
    Services → WithdrawalRequest → Asset → Decimal → Needed → Transaction → Action String
hold_and_quote env req asset fee needed txn = do
  linked ← reserve env req asset fee needed txn
  require_rate env req linked
  _ ← lift (require_provider_asset env asset)
  quote_network_fee env linked
  pure linked.id

-- what the checks hand on
pub record Checked : Type 0 where
  pub asset : Asset
  pub fee : Decimal
  pub needed : Needed
  pub params : TransactionParams

-- from the destination to the parameters of the local transaction
unfoldable pub check_rest :
    Services → WithdrawalRequest → UserWallet → Asset → Decimal → Needed → Action Checked
check_rest env req own asset fee needed = do
  destination ← lift (check_destination req own)
  read_location req
  params ← lift (build_params env req fee needed destination)
  pure (record { asset = asset; fee = fee; needed = needed; params = params })

-- the amounts and the balance, once the rate is there
unfoldable pub check_quoted :
    Services → WithdrawalRequest → UserWallet → Asset → RateResponse → Action Checked
check_quoted env req own asset rate_resp = do
  fee ← lift (check_amounts req rate_resp)
  needed ← check_balance env req asset fee rate_resp
  check_rest env req own asset fee needed

-- up to the call of the handler
unfoldable pub check_request : Services → WithdrawalRequest → Action Checked
check_request env req = do
  wallet ← call env.get_wallet (λ _. wallet_read)
  own ← or_fail no_wallet wallet
  answer ← call env.get_asset (λ _. asset_read)
  asset ← or_fail no_asset answer
  rate_resp ← fetch_if_needed env req
  check_quoted env req own asset rate_resp

unfoldable pub initiate_withdrawal : Services → WithdrawalRequest → Action String
initiate_withdrawal env req = do
  checked ← check_request env req
  created ←
      call (env.create_transaction checked.params)
        (λ o. transaction_created checked.params (is_some o))
  txn ← or_fail transaction_not_recorded created
  hold_and_quote env req checked.asset checked.fee checked.needed txn
