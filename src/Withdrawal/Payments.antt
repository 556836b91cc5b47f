-- ===== src/Withdrawal/Payments.antt =====
-- The amount that an execution pays, and the split of the hold between the payment and the fee.
use looprail_backend.Prelude.{
  ◌≡◌, refl, Bool, true, false, ◌||◌, not, Option, none, some, String, List, [], ◌∷◌, arith, ℤ,
  ◌+ℤ◌, ◌-ℤ◌, pos, int_laws, inl, inr,
}
use looprail_backend.Decimal
use looprail_backend.Decimal.{Decimal}
use looprail_backend.Withdrawal.World
use looprail_backend.Withdrawal.World.{
  WithdrawalMethod, WithdrawalRequest, UserWallet, Asset, Failure, Exception, Services, Event,
  Trace, Transaction, TransactionStatus, WorldLedger, Transfer, sent, hold_committed,
  master_transferred, wallet_transferred, status_updated, Outcome, ok, err, raised, is_some,
}
use looprail_backend.Withdrawal.Amounts.{zero_fee, is_naira}
use looprail_backend.Withdrawal.Balance.{minor_units}
use looprail_backend.Withdrawal.Initiate.{mark_failed, destinations_of}
use looprail_backend.Withdrawal.Execute.{
  retrieve, update_withdrawal_status, resolve_institution, usdc_amount, note_order,
  transfer_from_master_wallet, place_order, execute_bank_transfer, provider_asset_at,
  execute_external_wallet, commit_hold, pay_out, execute_withdrawal_processing,
}
use looprail_backend.Withdrawal.Checks.{Outcome-cases}

-- the amount of the latest payment that was sent
abbrev pub latest_payment : Trace → Option Decimal
latest_payment [] = none
latest_payment (e ∷ t) =
    let rest = latest_payment t in
    elim e [
      | master_transferred amount address (sent h) ↦ some amount
      | wallet_transferred asset amount address (sent h) ↦ some amount
      | _ ↦ rest
    ]

-- the amount is paid as it stands
abbrev pub is_unconverted : WithdrawalRequest → Bool
is_unconverted req = elim req.method [
  | World.bank_transfer ↦ not (is_naira req.currency)
  | World.external_wallet ↦ true
]

master-amount :
    (env : Services) (address : String) (amount : Decimal) (t : Trace)
    → (transfer_from_master_wallet env address amount t).0 ≡ ok tt
    → latest_payment (transfer_from_master_wallet env address amount t).1 ≡ some amount
unfolding transfer_from_master_wallet
master-amount env address amount t h = ground arith

bank-amount :
    (env : Services) (req : WithdrawalRequest) (txn : Transaction) (t : Trace)
    → (execute_bank_transfer env req txn t).0 ≡ ok tt
    → is_naira req.currency ≡ false
    → latest_payment (execute_bank_transfer env req txn t).1 ≡ some req.amount
unfolding execute_bank_transfer resolve_institution usdc_amount place_order mark_failed note_order
    transfer_from_master_wallet
bank-amount env req txn t h n = ground arith

wallet-amount :
    (env : Services) (req : WithdrawalRequest) (txn : Transaction) (t : Trace)
    → (execute_external_wallet env req txn t).0 ≡ ok tt
    → latest_payment (execute_external_wallet env req txn t).1 ≡ some req.amount
unfolding execute_external_wallet provider_asset_at mark_failed
wallet-amount env req txn t h = ground arith

pay_out-amount :
    (method : WithdrawalMethod) (env : Services) (req : WithdrawalRequest) (txn : Transaction)
    (t : Trace)
    → method ≡ req.method
    → (pay_out method env req txn t).0 ≡ ok tt
    → is_unconverted req ≡ true
    → latest_payment (pay_out method env req txn t).1 ≡ some req.amount
unfolding pay_out
pay_out-amount World.bank_transfer env req txn t m h u = bank-amount env req txn t h (ground arith)
pay_out-amount World.external_wallet env req txn t m h u = wallet-amount env req txn t h

-- Where the execution of a withdrawal returns, the latest payment is of the request's amount, as it stands, if
-- the withdrawal goes to an external wallet, in whatever currency its amount is, or to a bank in another currency
-- than naira.
pub execute-amount :
    (env : Services) (req : WithdrawalRequest) (id : String) (t : Trace)
    → (execute_withdrawal_processing env req id t).0 ≡ ok tt
    → is_unconverted req ≡ true
    → latest_payment (execute_withdrawal_processing env req id t).1 ≡ some req.amount
unfolding execute_withdrawal_processing update_withdrawal_status
execute-amount env req id t h u = elim (Outcome-cases (retrieve env id t).0) [
  | inl (txn, r) ↦
      let t1 = (retrieve env id t).1 in
      elim (Outcome-cases (commit_hold env txn t1).0) [
        | inl (v, c) ↦
            let t2 = (commit_hold env txn t1).1 in
            elim (Outcome-cases (pay_out req.method env req txn t2).0) [
              | inl (w, p) ↦
                  let q = pay_out-amount req.method env req txn t2 refl p u in ground arith
              | inr x ↦ ground arith
            ]
        | inr x ↦ ground arith
      ]
  | inr x ↦ ground arith
]

abbrev pub sum_of : List (WorldLedger × ℤ) → ℤ
sum_of [] = pos 0
sum_of ((ledger, amount) ∷ rest) = amount +ℤ sum_of rest

+ℤ_zero : (a : ℤ) → a +ℤ pos 0 ≡ a
+ℤ_zero a = grind int_laws

+ℤ-split : (a b : ℤ) → a +ℤ (b -ℤ a +ℤ pos 0) ≡ b
+ℤ-split a b = grind int_laws

-- The amounts of the hold's destinations add up to the hold's amount if a rate applies, or if no fee is taken.
pub destinations-total :
    (req : WithdrawalRequest) (asset : Asset) (fee : Decimal) (total : ℤ) (rate : Option Decimal)
    → (is_some rate || not (Decimal.lt zero_fee fee)) ≡ true
    → sum_of (destinations_of req asset fee total rate) ≡ total
unfolding destinations_of
destinations-total req asset fee total none h = ground (arith, +ℤ_zero total)
destinations-total req asset fee total (some r) h =
    let item = minor_units req.amount (some r) asset in
    ground (arith, +ℤ_zero total, +ℤ-split item total)
