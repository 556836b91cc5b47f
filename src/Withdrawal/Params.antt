-- ===== src/Withdrawal/Params.antt =====
-- `initiate_withdrawal`: the destination, and the parameters of the local transaction.
use looprail_backend.Prelude.{
  str_eq, ℕ, Bool, ◌&&◌, none, some, String, List, [], ◌∷◌, leb, length, if◌then◌else◌,
}
use looprail_backend.Prelude.Text.{codes, same_lower}
use looprail_backend.Config.{
  Bank, get_banks, get_country_code_by_currency, get_country_name_by_currency,
}
use looprail_backend.Decimal
use looprail_backend.Decimal.{Decimal}
use looprail_backend.Withdrawal.World.{
  currency_value, bank_transfer, external_wallet, BankTransferData, bank_data, wallet_data,
  malformed, WithdrawalRequest, UserWallet, bank_params, wallet_params, TransactionParams, Services,
  location_read, self_transfer, validation_error, unbound_local_error, Outcome, ok, err, raised,
  Action, pure, call,
}
use looprail_backend.Withdrawal.Amounts.{zero_fee}
use looprail_backend.Withdrawal.Balance.{Needed}

-- `specific_data`
pub data SpecificData : Type 0 where
  bank_destination : BankTransferData → SpecificData
  wallet_destination : String → SpecificData

-- `model_validate` raises on data of another shape; a transfer to the own address is refused.
unfoldable pub check_destination : WithdrawalRequest → UserWallet → Outcome SpecificData
check_destination req wallet = elim req.method [
  | bank_transfer ↦ elim req.transfer [
    | bank_data d ↦ ok (bank_destination d)
    | wallet_data a ↦ raised validation_error
    | malformed ↦ raised validation_error
  ]
  | external_wallet ↦ elim req.transfer [
    | wallet_data a ↦
        if same_lower a wallet.address then err self_transfer else ok (wallet_destination a)
    | bank_data d ↦ raised validation_error
    | malformed ↦ raised validation_error
  ]
]

-- the location of the request's address, which goes into the metadata only
unfoldable pub read_location : WithdrawalRequest → Action (Unit {0})
read_location req = elim req.ip_address [
  | none ↦ pure tt
  | some ip ↦ if str_eq ip "" then pure tt else call (λ _. tt) (λ _. location_read)
]

abbrev pub first_name : String → List Bank → String
first_name default [] = default
first_name default (b ∷ _) = b.name

-- the name of the bank in the country of the currency
unfoldable pub bank_name_of : Services → WithdrawalRequest → BankTransferData → String
bank_name_of env req d =
    elim (get_country_code_by_currency env.countries (currency_value req.currency)) [
      | none ↦ "Unknown Bank"
      | some code ↦ first_name "Unknown Bank" (get_banks env.banks_data (some code) d.bank_code)
    ]

abbrev pub has_length : ℕ → ℕ → String → Bool
has_length min max s = leb min (length (codes s)) && leb (length (codes s)) max

-- the constraints of `BaseTransactionParams`
abbrev pub valid_base : WithdrawalRequest → Bool
valid_base req = Decimal.lt zero_fee req.amount && has_length 0 500 req.narration

-- the constraints of `BankTransferParams`
abbrev pub valid_bank : BankTransferData → String → Bool
valid_bank d bank_name =
    has_length 3 20 d.bank_code
    && has_length 1 100 bank_name
    && has_length 10 20 d.account_number
    && has_length 1 200 d.account_name

-- `common_transaction_params`; without a balance check there is no `effective_rate` to read
unfoldable pub build_params :
    Services → WithdrawalRequest → Decimal → Needed → SpecificData → Outcome TransactionParams
unfolding bank_name_of
build_params env req fee needed (bank_destination d) =
    let bank_name = bank_name_of env req d in
    elim needed [
      | none ↦ raised unbound_local_error
      | some (_, rate) ↦
          if valid_base req && valid_bank d bank_name
          then ok (record {
            amount = req.amount;
            fee = fee;
            currency = req.currency;
            country = get_country_name_by_currency env.countries (currency_value req.currency);
            details = bank_params d bank_name rate;
          })
          else raised validation_error
    ]
build_params env req fee needed (wallet_destination address) =
    if valid_base req
    then ok (record {
      amount = req.amount;
      fee = fee;
      currency = req.currency;
      country = get_country_name_by_currency env.countries (currency_value req.currency);
      details = wallet_params address;
    })
    else raised validation_error
