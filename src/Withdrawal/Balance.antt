-- ===== src/Withdrawal/Balance.antt =====
-- `initiate_withdrawal`: the amount in the asset's minor units, against the ledger's balance.
use looprail_backend.Prelude.{
  String, str_eq, Bool, ◌&&◌, not, Option, none, some, ℤ, ◌-ℤ◌, ltb_ℤ, if◌then◌else◌,
}
use looprail_backend.Prelude.Text.{same_upper}
use looprail_backend.Decimal
use looprail_backend.Decimal.{Decimal, is_zero}
use looprail_backend.Withdrawal.World.{
  currency_value, WithdrawalRequest, Asset, Balances, Services, rate_read, balance_read, no_balance,
  no_conversion_rate, insufficient_balance, arithmetic_error, Outcome, ok, err, raised, Action,
  pure, lift, call, or_fail, check, ◌>>=◌, ◌>>◌,
}
use looprail_backend.Withdrawal.Amounts.{RateResponse, is_us_dollar, sell_rate}

-- balance - inflight_debit_balance - queued_debit_balance
unfoldable pub available_balance : Balances → ℤ
available_balance b = b.balance -ℤ b.inflight_debit_balance -ℤ b.queued_debit_balance

-- A conversion is needed if the asset's symbol is not the currency, and the currency is no dollar.
unfoldable pub is_cross_currency : Asset → WithdrawalRequest → Bool
is_cross_currency asset req =
    not (same_upper asset.symbol (currency_value req.currency)) && not (is_us_dollar req.currency)

-- Decimal("1") / rate, where a missing rate and a zero result count as no rate
unfoldable pub inverse_rate : RateResponse → Outcome Decimal
inverse_rate rate_resp = elim (sell_rate rate_resp) [
  | none ↦ err no_conversion_rate
  | some rate ↦ elim (Decimal.div (Decimal.of_ℕ 1) rate) [
    | none ↦ raised arithmetic_error
    | some inverse ↦ if is_zero inverse then err no_conversion_rate else ok inverse
  ]
]

abbrev pub known : RateResponse → Services → WithdrawalRequest → Action RateResponse
known none env req = call (env.fetch_rate req.amount) (λ _. rate_read)
known (some quote) env req = pure (some quote)

unfoldable pub effective_rate :
    Services → WithdrawalRequest → Asset → RateResponse → Action (Option Decimal)
unfolding is_cross_currency inverse_rate
effective_rate env req asset rate_resp =
    if is_cross_currency asset req
    then (do
      quote ← known rate_resp env req
      inverse ← lift (inverse_rate quote)
      pure (some inverse))
    else pure none

-- `int(amount * effective_rate * asset.precision)`, or without the rate
unfoldable pub minor_units : Decimal → Option Decimal → Asset → ℤ
minor_units amount rate asset =
    let converted : Decimal = elim rate [ none ↦ amount | some r ↦ Decimal.mul amount r ] in
    Decimal.trunc (Decimal.mul converted (Decimal.of_ℕ asset.precision))

-- `total_needed_minor`
unfoldable pub total_needed : WithdrawalRequest → Decimal → Option Decimal → Asset → ℤ
unfolding minor_units
total_needed req fee rate asset = minor_units (Decimal.add req.amount fee) rate asset

-- What the branch binds, if it is taken: `total_needed_minor` and `effective_rate`.
abbrev pub Needed : Type 0
Needed = Option (ℤ × Option Decimal)

-- an id that is there and not empty
abbrev pub balance_id_of : Asset → Option String
balance_id_of asset = elim asset.ledger_balance_id [
  | none ↦ none
  | some id ↦ if str_eq id "" then none else some id
]

unfoldable pub check_balance :
    Services → WithdrawalRequest → Asset → Decimal → RateResponse → Action Needed
unfolding available_balance effective_rate total_needed
check_balance env req asset fee rate_resp = elim (balance_id_of asset) [
  | none ↦ pure none
  | some balance_id ↦ do
    answer ← call (env.get_balance balance_id) (balance_read balance_id)
    balances ← or_fail no_balance answer
    rate ← effective_rate env req asset rate_resp
    let needed = total_needed req fee rate asset
    check (not (ltb_ℤ (available_balance balances) needed)) insufficient_balance
    pure (some (needed, rate))
]
