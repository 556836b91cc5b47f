-- ===== src/Withdrawal/Amounts.antt =====
-- `initiate_withdrawal`: the exchange rate, the minimum and the fee.
use looprail_backend.Prelude.{Bool, true, false, ◌&&◌, ◌||◌, Option, none, some, pos, if◌then◌else◌}
use looprail_backend.Decimal
use looprail_backend.Decimal.{Decimal}
use looprail_backend.Withdrawal.World.{
  Currency, naira, us_dollar, usdc, WithdrawalMethod, bank_transfer, external_wallet,
  WithdrawalRequest, Services, rate_read, below_minimum, arithmetic_error, Outcome, ok, err, raised,
  Action, pure, call,
}

abbrev pub is_naira : Currency → Bool
is_naira naira = true
is_naira us_dollar = false
is_naira usdc = false

abbrev pub is_us_dollar : Currency → Bool
is_us_dollar naira = false
is_us_dollar us_dollar = true
is_us_dollar usdc = false

abbrev pub is_bank : WithdrawalMethod → Bool
is_bank bank_transfer = true
is_bank external_wallet = false

-- the constants of infrastructure/constants.py
abbrev pub min_bank_transfer_ngn : Decimal
min_bank_transfer_ngn = record { coefficient = pos 1000; scale = 0 }

abbrev pub bank_transfer_fee_threshold_usd : Decimal
bank_transfer_fee_threshold_usd = record { coefficient = pos 10; scale = 0 }

abbrev pub bank_transfer_withdrawal_fee : Decimal
bank_transfer_withdrawal_fee = record { coefficient = pos 1; scale = 1 }

abbrev pub min_wallet_transfer_usd : Decimal
min_wallet_transfer_usd = record { coefficient = pos 5; scale = 2 }

-- the fee in naira where no rate is known
abbrev pub default_fee_ngn : Decimal
default_fee_ngn = record { coefficient = pos 150; scale = 0 }

abbrev pub zero_fee : Decimal
zero_fee = record { coefficient = pos 0; scale = 0 }

-- `rate_resp`: `none` where nothing was fetched or the fetch failed
abbrev pub RateResponse : Type 0
RateResponse = Option (Option Decimal)

unfoldable pub needs_rate : Currency → WithdrawalMethod → Bool
needs_rate currency method = is_naira currency || (is_us_dollar currency && is_bank method)

unfoldable pub fetch_if_needed : Services → WithdrawalRequest → Action RateResponse
unfolding needs_rate
fetch_if_needed env req =
    if needs_rate req.currency req.method
    then call (env.fetch_rate req.amount) (λ _. rate_read)
    else pure none

-- `_sell_rate`
abbrev pub sell_rate : RateResponse → Option Decimal
sell_rate none = none
sell_rate (some quote) = quote

-- `amount_in_usd`; an arithmetic error of the conversion is caught, and leaves the amount
unfoldable pub amount_in_usd : WithdrawalRequest → RateResponse → Decimal
amount_in_usd req rate_resp = elim (sell_rate rate_resp) [
  | none ↦ req.amount
  | some rate ↦
      if is_naira req.currency
      then (elim (Decimal.div req.amount rate) [ none ↦ req.amount | some usd ↦ usd ])
      else req.amount
]

-- the minimum of a bank transfer, where there is one
unfoldable pub bank_minimum : Currency → RateResponse → Outcome (Option Decimal)
bank_minimum naira rate_resp = ok (some min_bank_transfer_ngn)
bank_minimum us_dollar rate_resp = elim (sell_rate rate_resp) [
  | none ↦ ok none
  | some rate ↦ elim (Decimal.div min_bank_transfer_ngn rate) [
    | none ↦ raised arithmetic_error
    | some usd ↦ ok (some (Decimal.quantize 2 usd))
  ]
]
bank_minimum usdc rate_resp = ok none

-- the fee of a bank transfer
unfoldable pub bank_fee : WithdrawalRequest → RateResponse → Decimal
unfolding amount_in_usd
bank_fee req rate_resp =
    let above = Decimal.lt bank_transfer_fee_threshold_usd (amount_in_usd req rate_resp) in
    let in_naira : Decimal = elim (sell_rate rate_resp) [
      | none ↦ default_fee_ngn
      | some rate ↦ Decimal.quantize 2 (Decimal.mul bank_transfer_withdrawal_fee rate)
    ] in
    if above
    then (if is_naira req.currency then in_naira else bank_transfer_withdrawal_fee)
    else zero_fee

abbrev pub below : Decimal → Option Decimal → Bool
below amount none = false
below amount (some minimum) = Decimal.lt amount minimum

-- the minimum of the method, and the fee
unfoldable pub check_amounts : WithdrawalRequest → RateResponse → Outcome Decimal
unfolding bank_minimum bank_fee amount_in_usd
check_amounts req rate_resp = elim req.method [
  | bank_transfer ↦ elim (bank_minimum req.currency rate_resp) [
    | ok minimum ↦
        if below req.amount minimum then err below_minimum else ok (bank_fee req rate_resp)
    | err e ↦ err e
    | raised x ↦ raised x
  ]
  | external_wallet ↦
      if Decimal.lt (amount_in_usd req rate_resp) min_wallet_transfer_usd
      then err below_minimum
      else ok zero_fee
]
