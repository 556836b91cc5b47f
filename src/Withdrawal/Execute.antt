-- ===== src/Withdrawal/Execute.antt =====
-- `execute_withdrawal_processing`: the hold is committed and the amount paid out. The request has been
-- validated again; the method is one of the two of its type.
use looprail_backend.Prelude.{
  true, false, Option, none, some, String, List, [], ◌∷◌, str_eq, if◌then◌else◌,
}
use looprail_backend.Config
use looprail_backend.Config.{
  AssetData, WalletEntry, AssetKey, WalletKey, found, failed, get_asset, Bank, get_banks,
  get_country_code_by_currency,
}
use looprail_backend.Decimal
use looprail_backend.Decimal.{Decimal}
use looprail_backend.Withdrawal.World
use looprail_backend.Withdrawal.World.{
  currency_value, WithdrawalMethod, bank_transfer, external_wallet, BankTransferData, TransferData,
  bank_data, wallet_data, malformed, WithdrawalRequest, UserWallet, Asset, TransactionStatus,
  Transaction, Services, Transfer, Event, wallet_read, asset_read, rate_read, user_read,
  transaction_read, hold_committed, status_updated, order_created, details_saved, hash_saved,
  master_transferred, wallet_transferred, Failure, Exception, Outcome, ok, err, raised, Action,
  pure, lift, fail, raise, call, or_fail, check, ◌>>=◌, ◌>>◌,
}
use looprail_backend.Withdrawal.Amounts.{is_naira}
use looprail_backend.Withdrawal.Initiate.{mark_failed}

-- `_retrieve_withdrawal_transaction_and_user`
unfoldable pub retrieve : Services → String → Action Transaction
retrieve env transaction_id = do
  answer ← call (env.get_transaction transaction_id) (λ _. transaction_read)
  txn ← or_fail World.no_transaction answer
  user ← call env.get_user (λ _. user_read)
  check user World.no_user
  pure txn

-- `_update_withdrawal_transaction_status`
unfoldable pub update_withdrawal_status : Services → String → TransactionStatus → Action (Unit {0})
update_withdrawal_status env id status = do
  updated ← call (env.update_status id status) (status_updated id status)
  check updated World.status_not_updated

abbrev pub first_code : List Bank → Option String
first_code [] = none
first_code (b ∷ _) = b.code

-- `institution_code`, which must not be empty
unfoldable pub resolve_institution :
    Services → WithdrawalRequest → BankTransferData → Outcome String
resolve_institution env req d =
    elim (get_country_code_by_currency env.countries (currency_value req.currency)) [
      | none ↦ err World.no_country
      | some country ↦ elim (first_code (get_banks env.banks_data (some country) d.bank_code)) [
        | none ↦ err World.no_institution
        | some code ↦ if str_eq code "" then err World.no_institution else ok code
      ]
    ]

-- `usdc_amount`, at the sell rate for an amount in naira
unfoldable pub usdc_amount : Services → WithdrawalRequest → Action Decimal
usdc_amount env req =
    if is_naira req.currency
    then (do
      answer ← call (env.fetch_rate req.amount) (λ _. rate_read)
      quote ← or_fail World.no_conversion answer
      rate ← or_fail World.no_conversion quote
      elim (Decimal.div req.amount rate) [
        | none ↦ raise World.arithmetic_error
        | some converted ↦ pure (Decimal.quantize 8 converted)
      ])
    else pure req.amount

-- A transaction that is gone is read for the log, which raises; one without bank details is left.
unfoldable pub note_order : Services → Transaction → String → Action (Unit {0})
note_order env txn order_id = do
  answer ← call (env.find_transaction txn.id) (λ _. transaction_read)
  elim answer [
    | none ↦ raise World.attribute_error
    | some false ↦ pure tt
    | some true ↦ do
      saved ← call (env.save_details order_id) (details_saved order_id)
      check saved World.details_not_updated
  ]

-- `_transfer_from_master_wallet`
unfoldable pub transfer_from_master_wallet : Services → String → Decimal → Action (Unit {0})
transfer_from_master_wallet env address amount =
    elim (Config.get_wallet env.wallets ((WalletKey.wallet_name, "master_base_wallet") ∷ [])) [
      | failed e ↦ fail World.master_transfer_failed
      | found wallet ↦ elim (get_asset wallet ((AssetKey.symbol, "USDC") ∷ [])) [
        | failed e ↦ fail World.master_transfer_failed
        | found asset ↦ elim asset.blockrader_asset_id [
          | none ↦ raise World.validation_error
          | some id ↦ do
            answer ← call (env.master_transfer amount address) (master_transferred amount address)
            elim answer [
              | Transfer.transfer_error ↦ fail World.master_transfer_failed
              | Transfer.no_transfer_data ↦ raise World.reply_without_data
              | Transfer.sent hash ↦ pure tt
            ]
        ]
      ]
    ]

abbrev pub order_id_of : Option (String × String) → Option String
order_id_of none = none
order_id_of (some (id, address)) = some id

-- the order, whose failure marks the transaction as failed
unfoldable pub place_order : Services → Transaction → Decimal → Action (String × String)
place_order env txn amount = do
  order ← call (env.create_order amount) (λ o. order_created amount txn.reference (order_id_of o))
  elim order [
    | none ↦ do mark_failed env txn.id; fail World.order_failed
    | some placed ↦ pure placed
  ]

-- `_execute_bank_transfer_withdrawal`
unfoldable pub execute_bank_transfer :
    Services → WithdrawalRequest → Transaction → Action (Unit {0})
execute_bank_transfer env req txn = elim req.transfer [
  | malformed ↦ raise World.validation_error
  | wallet_data a ↦ raise World.validation_error
  | bank_data d ↦ do
    institution ← lift (resolve_institution env req d)
    wallet ← call env.get_wallet (λ _. wallet_read)
    own ← or_fail World.no_wallet wallet
    amount ← usdc_amount env req
    order ← place_order env txn amount
    note_order env txn order.0
    transfer_from_master_wallet env order.1 amount
]

-- `self.wallet_config.get(address=...)`, with an id at the provider
unfoldable pub provider_asset_at : Services → String → Outcome String
provider_asset_at env address =
    elim (get_asset env.wallet_config ((AssetKey.address, address) ∷ [])) [
      | failed e ↦ err World.no_blockrader_asset
      | found a ↦ elim a.blockrader_asset_id [
        | none ↦ raised World.validation_error
        | some id ↦ ok id
      ]
    ]

-- `_execute_external_wallet_withdrawal`
unfoldable pub execute_external_wallet :
    Services → WithdrawalRequest → Transaction → Action (Unit {0})
execute_external_wallet env req txn = elim req.transfer [
  | malformed ↦ raise World.validation_error
  | bank_data d ↦ raise World.validation_error
  | wallet_data address ↦ do
    answer ← call env.get_asset (λ _. asset_read)
    asset ← or_fail World.no_asset answer
    provider_id ← lift (provider_asset_at env asset.address)
    reply ←
        call (env.wallet_transfer provider_id req.amount address)
          (wallet_transferred provider_id req.amount address)
    elim reply [
      | Transfer.transfer_error ↦ do mark_failed env txn.id; fail World.wallet_transfer_failed
      | Transfer.no_transfer_data ↦ raise World.reply_without_data
      | Transfer.sent none ↦ pure tt
      | Transfer.sent (some h) ↦
          if str_eq h "" then pure tt else call (λ _. tt) (λ _. hash_saved txn.id h)
    ]
]

-- a ledger id that is there and not empty
abbrev pub ledger_id_of : Transaction → Option String
ledger_id_of txn = elim txn.ledger_transaction_id [
  | none ↦ none
  | some id ↦ if str_eq id "" then none else some id
]

-- the commit of the hold, whose failure marks the transaction as failed
unfoldable pub commit_hold : Services → Transaction → Action (Unit {0})
commit_hold env txn = do
  ledger_id ← or_fail World.no_ledger_id (ledger_id_of txn)
  committed ← call (env.commit_inflight (some ledger_id)) (hold_committed (some ledger_id))
  if committed then pure tt else (do mark_failed env txn.id; fail World.not_committed)

-- the payment of the method
unfoldable pub pay_out :
    WithdrawalMethod → Services → WithdrawalRequest → Transaction → Action (Unit {0})
pay_out bank_transfer env req txn = execute_bank_transfer env req txn
pay_out external_wallet env req txn = execute_external_wallet env req txn

unfoldable pub execute_withdrawal_processing :
    Services → WithdrawalRequest → String → Action (Unit {0})
execute_withdrawal_processing env req transaction_id = do
  txn ← retrieve env transaction_id
  commit_hold env txn
  pay_out req.method env req txn
  update_withdrawal_status env transaction_id TransactionStatus.processing
