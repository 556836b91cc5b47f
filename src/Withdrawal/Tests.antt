-- ===== src/Withdrawal/Tests.antt =====
-- A withdrawal of one USDC to an external wallet, started and executed.
use looprail_backend.Prelude.{◌≡◌, refl, true, none, some, [], ◌∷◌, pos, ℤ}
use looprail_backend.Prelude.Int
use looprail_backend.Prelude.Text
use looprail_backend.Config
use looprail_backend.Config.{AssetData, WalletEntry}
use looprail_backend.Decimal
use looprail_backend.Decimal.{Decimal}
use looprail_backend.Withdrawal.World
use looprail_backend.Withdrawal.World.{
  WithdrawalRequest, UserWallet, Asset, Balances, Transaction, Services, Trace, WorldLedger,
  world_out, platform_fees, Event, ok, err,
}
use looprail_backend.Withdrawal.Amounts
use looprail_backend.Withdrawal.Balance
use looprail_backend.Withdrawal.Params
use looprail_backend.Withdrawal.Initiate
use looprail_backend.Withdrawal.Initiate.{destinations_of, initiate_withdrawal}
use looprail_backend.Withdrawal.Execute
use looprail_backend.Withdrawal.Execute.{execute_withdrawal_processing}
use looprail_backend.Withdrawal.Checks.{writes}
use looprail_backend.Withdrawal.Holds.{
  placed, void_requests, refused_writes_nothing, initiate-holds,
}
use looprail_backend.Withdrawal.Covered.{is_covered, initiate-is_covered}
use looprail_backend.Withdrawal.Payout.{effects, execute-effects}
use looprail_backend.Withdrawal.Payments.{
  latest_payment, execute-amount, sum_of, destinations-total,
}

abbrev one : Decimal
one = record { coefficient = pos 1; scale = 0 }

abbrev request : WithdrawalRequest
request = record {
  amount = one;
  currency = World.usdc;
  narration = "savings";
  method = World.external_wallet;
  transfer = World.wallet_data "0xabc";
  ip_address = none;
}

abbrev usdc_asset : Asset
usdc_asset = record {
  asset_id = "a1";
  address = "0x1";
  ledger_balance_id = some "bal";
  symbol = "USDC";
  precision = 100;
}

abbrev at_provider : AssetData
at_provider = record {
  asset_id = "a1";
  blockrader_asset_id = some "br1";
  address = "0x1";
  symbol = "USDC";
}

abbrev entry : WalletEntry
entry = record { wallet_id = "w"; wallet_name = "master_base_wallet"; assets = at_provider ∷ [] }

abbrev txn : Transaction
txn = record { id = "txn"; reference = "ref"; wallet_id = "uw"; ledger_transaction_id = some "led" }

abbrev services : ℤ → Services
services funds = record {
  get_wallet = λ _. some (record { id = "uw"; address = "0xown" });
  get_asset = λ _. some usdc_asset;
  fetch_rate = λ _ _. some (some one);
  get_balance = λ _ _.
      some
        (record { balance = funds; inflight_debit_balance = pos 0; queued_debit_balance = pos 0 });
  create_transaction = λ _ _. some txn;
  record_transaction = λ _ _. some "led";
  save_transaction = λ _ _. true;
  void_inflight = λ _ _. true;
  commit_inflight = λ _ _. true;
  update_status = λ _ _ _. true;
  network_fee = λ _. World.NetworkFee.fee "0.01";
  get_transaction = λ _ _. some txn;
  get_user = λ _. true;
  find_transaction = λ _ _. some true;
  create_order = λ _ _. some ("order", "0xorder");
  save_details = λ _ _. true;
  master_transfer = λ _ _ _. World.Transfer.sent none;
  wallet_transfer = λ _ _ _ _. World.Transfer.sent (some "0xhash");
  wallet_config = entry;
  wallets = entry ∷ [];
  countries = [];
  banks_data = [];
}

refused_writes_nothing_example : writes (initiate_withdrawal (services (pos 99)) request []).1 ≡ []
unfolding initiate_withdrawal Initiate.check_request Initiate.check_quoted Initiate.check_rest
    Amounts.fetch_if_needed Amounts.needs_rate Amounts.check_amounts Amounts.amount_in_usd
    Balance.check_balance Balance.effective_rate Balance.is_cross_currency Balance.available_balance
    Balance.total_needed Balance.minor_units Params.check_destination Decimal.lt Text.same_upper
    Int.◌-ℤ◌ Decimal.trunc Decimal.mul Decimal.add Decimal.of_ℕ
refused_writes_nothing_example =
    refused_writes_nothing (services (pos 99)) request [] World.insufficient_balance refl refl

initiate-holds_example :
    (placed (initiate_withdrawal (services (pos 100)) request []).1 ≡ 1)
    × (void_requests (initiate_withdrawal (services (pos 100)) request []).1 ≡ 0)
unfolding initiate_withdrawal Initiate.check_request Amounts.fetch_if_needed Initiate.check_quoted
    Amounts.check_amounts Decimal.lt Balance.check_balance Text.same_upper Int.◌-ℤ◌ Decimal.trunc
    Decimal.mul Decimal.add Decimal.of_ℕ Initiate.check_rest Params.check_destination
    Text.same_lower Params.read_location Params.build_params Config.get_asset Config.get_banks
    Config.get_country_code_by_currency Config.get_country_name_by_currency Decimal.div Decimal.fix
    Decimal.half_even Decimal.quantize Int.◌*ℤ◌ Int.◌+ℤ◌ Text.is_upper_of Text.lower_code
    Text.upper_code Amounts.amount_in_usd Amounts.bank_fee Amounts.bank_minimum Amounts.needs_rate
    Balance.available_balance Balance.effective_rate Balance.inverse_rate Balance.is_cross_currency
    Balance.minor_units Balance.total_needed destinations_of Initiate.hold_and_quote
    Initiate.ledger_request Initiate.link_hold Initiate.mark_failed Initiate.quote_network_fee
    Initiate.require_provider_asset Initiate.require_rate Initiate.reserve Initiate.void_hold
initiate-holds_example = (initiate-holds (services (pos 100)) request []).0 "txn" refl

initiate-is_covered_example :
    is_covered (initiate_withdrawal (services (pos 100)) request []).1 ≡ true
initiate-is_covered_example = initiate-is_covered (services (pos 100)) request [] refl

execute-effects_example :
    effects (execute_withdrawal_processing (services (pos 100)) request "txn" []).1 ≡ (1, 1, 0)
unfolding execute_withdrawal_processing Execute.retrieve Execute.commit_hold Execute.pay_out
    Execute.execute_external_wallet Execute.provider_asset_at Config.get_asset
    Execute.update_withdrawal_status
execute-effects_example = (execute-effects (services (pos 100)) request "txn" []).0 refl

execute-amount_example :
    latest_payment (execute_withdrawal_processing (services (pos 100)) request "txn" []).1
    ≡ some one
unfolding execute_withdrawal_processing Execute.retrieve Execute.commit_hold Execute.pay_out
    Execute.execute_external_wallet Execute.provider_asset_at Config.get_asset
    Execute.update_withdrawal_status
execute-amount_example = execute-amount (services (pos 100)) request "txn" [] refl refl

destinations-total_example :
    sum_of (destinations_of request usdc_asset one (pos 200) (some one)) ≡ pos 200
destinations-total_example = destinations-total request usdc_asset one (pos 200) (some one) refl
