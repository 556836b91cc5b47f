-- ===== src/Withdrawal/Payout.antt =====
-- What the execution of a withdrawal commits, pays and marks, for each of its outcomes.
use looprail_backend.Prelude.{
  ℕ, ◌+◌, ◌≡◌, Bool, true, false, String, [], ◌∷◌, arith, ap, ◌∙◌, inl, inr, if◌then◌else◌,
}
use looprail_backend.Decimal.{Decimal}
use looprail_backend.Withdrawal.World
use looprail_backend.Withdrawal.World.{
  WithdrawalMethod, WithdrawalRequest, UserWallet, Asset, Failure, Exception, Services, Event,
  Trace, Transaction, TransactionStatus, Transfer, sent, hold_committed, master_transferred,
  wallet_transferred, status_updated, Outcome, ok, err, raised, ◌>>◌,
}
use looprail_backend.Withdrawal.Initiate.{mark_failed}
use looprail_backend.Withdrawal.Execute.{
  retrieve, update_withdrawal_status, resolve_institution, usdc_amount, note_order,
  transfer_from_master_wallet, place_order, execute_bank_transfer, provider_asset_at,
  execute_external_wallet, commit_hold, pay_out, execute_withdrawal_processing,
}
use looprail_backend.Withdrawal.Checks.{Outcome-cases}

-- How many holds the ledger committed and how many payments the provider took, with or without data in its reply, and
-- how many requests there were to mark a transaction as failed, whatever the answer.
abbrev pub Effects : Type 0
Effects = ℕ × ℕ × ℕ

infixl 65 ◌plus◌
abbrev pub ◌plus◌ : Effects → Effects → Effects
(a, b, c) plus (d, e, f) = (a + d, b + e, c + f)

abbrev pub effect : Event → Effects
effect (hold_committed id true) = (1, 0, 0)
effect (master_transferred amount address (sent h)) = (0, 1, 0)
effect (master_transferred amount address World.no_transfer_data) = (0, 1, 0)
effect (wallet_transferred asset amount address (sent h)) = (0, 1, 0)
effect (wallet_transferred asset amount address World.no_transfer_data) = (0, 1, 0)
effect (status_updated id TransactionStatus.failed done) = (0, 0, 1)
effect _ = (0, 0, 0)

abbrev pub effects : Trace → Effects
effects [] = (0, 0, 0)
effects (e ∷ t) = effect e plus effects t

-- the effects of the payment that ends in an error
abbrev pub effects_at_payment_error : Failure → Effects
effects_at_payment_error World.order_failed = (0, 0, 1)
effects_at_payment_error World.wallet_transfer_failed = (0, 0, 1)
effects_at_payment_error _ = (0, 0, 0)

-- the effects of the payment that raises
abbrev pub effects_at_raise : Exception → Effects
effects_at_raise World.reply_without_data = (0, 1, 0)
effects_at_raise _ = (0, 0, 0)

-- a payment is taken where the run returns, and the errors and exceptions have their effects
abbrev pub PaysOnce : Trace → Outcome (Unit {0}) × Trace → Type 0
PaysOnce t (o, t') =
    (o ≡ ok tt → effects t' ≡ (0, 1, 0) plus effects t)
    × ((e : Failure) → o ≡ err e → effects t' ≡ effects_at_payment_error e plus effects t)
    × ((x : Exception) → o ≡ raised x → effects t' ≡ effects_at_raise x plus effects t)

master-effects :
    (env : Services) (address : String) (amount : Decimal) (t : Trace)
    → PaysOnce t (transfer_from_master_wallet env address amount t)
unfolding transfer_from_master_wallet
master-effects env address amount t = (λ h. ground arith, λ e h. ground arith, λ x h. ground arith)

bank-effects :
    (env : Services) (req : WithdrawalRequest) (txn : Transaction) (t : Trace)
    → PaysOnce t (execute_bank_transfer env req txn t)
unfolding execute_bank_transfer resolve_institution usdc_amount place_order mark_failed note_order
    transfer_from_master_wallet
bank-effects env req txn t = (λ h. ground arith, λ e h. ground arith, λ x h. ground arith)

wallet-effects :
    (env : Services) (req : WithdrawalRequest) (txn : Transaction) (t : Trace)
    → PaysOnce t (execute_external_wallet env req txn t)
unfolding execute_external_wallet provider_asset_at mark_failed
wallet-effects env req txn t = (λ h. ground arith, λ e h. ground arith, λ x h. ground arith)

-- the errors of the payment
abbrev pub is_payment_error : Failure → Bool
is_payment_error World.no_country = true
is_payment_error World.no_institution = true
is_payment_error World.no_wallet = true
is_payment_error World.no_asset = true
is_payment_error World.no_conversion = true
is_payment_error World.order_failed = true
is_payment_error World.details_not_updated = true
is_payment_error World.master_transfer_failed = true
is_payment_error World.no_blockrader_asset = true
is_payment_error World.wallet_transfer_failed = true
is_payment_error _ = false

bank-fails :
    (env : Services) (req : WithdrawalRequest) (txn : Transaction) (t : Trace) (e : Failure)
    → (execute_bank_transfer env req txn t).0 ≡ err e
    → is_payment_error e ≡ true
unfolding execute_bank_transfer resolve_institution usdc_amount place_order mark_failed note_order
    transfer_from_master_wallet
bank-fails env req txn t e h = ground arith

wallet-fails :
    (env : Services) (req : WithdrawalRequest) (txn : Transaction) (t : Trace) (e : Failure)
    → (execute_external_wallet env req txn t).0 ≡ err e
    → is_payment_error e ≡ true
unfolding execute_external_wallet provider_asset_at mark_failed
wallet-fails env req txn t e h = ground arith

-- the effects of a whole execution that ends in an error
abbrev pub effects_at_error : Failure → Effects
effects_at_error World.not_committed = (0, 0, 1)
effects_at_error World.status_not_updated = (1, 1, 0)
effects_at_error e =
    if is_payment_error e then (1, 0, 0) plus effects_at_payment_error e else (0, 0, 0)

pay_out-effects :
    (method : WithdrawalMethod) (env : Services) (req : WithdrawalRequest) (txn : Transaction)
    (t : Trace)
    → PaysOnce t (pay_out method env req txn t)
unfolding pay_out
pay_out-effects World.bank_transfer env req txn t = bank-effects env req txn t
pay_out-effects World.external_wallet env req txn t = wallet-effects env req txn t

pay_out-fails :
    (method : WithdrawalMethod) (env : Services) (req : WithdrawalRequest) (txn : Transaction)
    (t : Trace) (e : Failure)
    → (pay_out method env req txn t).0 ≡ err e
    → is_payment_error e ≡ true
unfolding pay_out
pay_out-fails World.bank_transfer env req txn t e h = bank-fails env req txn t e h
pay_out-fails World.external_wallet env req txn t e h = wallet-fails env req txn t e h

-- Up to the payment: a failure there is none of the payment's.
commit-effects :
    (env : Services) (txn : Transaction) (t : Trace)
    → let (o, t') = commit_hold env txn t in
      (o ≡ ok tt → effects t' ≡ (1, 0, 0) plus effects t)
      × ((e : Failure) → o ≡ err e → effects t' ≡ effects_at_error e plus effects t)
      × ((x : Exception) → ¬ (o ≡ raised x))
unfolding commit_hold mark_failed
commit-effects env txn t = (λ h. ground arith, λ e h. ground arith, λ x h. ground arith)

retrieve-effects :
    (env : Services) (id : String) (t : Trace)
    → let (o, t') = retrieve env id t in
      (effects t' ≡ effects t)
      × ((e : Failure) → o ≡ err e → effects_at_error e ≡ (0, 0, 0))
      × ((x : Exception) → ¬ (o ≡ raised x))
unfolding retrieve
retrieve-effects env id t = (ground arith, λ e h. ground arith, λ x h. ground arith)

-- the outcomes of the whole, and what each has done since `t`
abbrev pub Accounts : Trace → Outcome (Unit {0}) × Trace → Type 0
Accounts t (o, t') =
    (o ≡ ok tt → effects t' ≡ (1, 1, 0) plus effects t)
    × ((e : Failure) → o ≡ err e → effects t' ≡ effects_at_error e plus effects t)
    × ((x : Exception)
        → o ≡ raised x
        → effects t' ≡ (1, 0, 0) plus effects_at_raise x plus effects t)

-- from the payment on
finish-effects :
    (env : Services) (req : WithdrawalRequest) (id : String) (txn : Transaction) (t t' : Trace)
    → effects t' ≡ (1, 0, 0) plus effects t
    → Accounts t (
        (pay_out req.method env req txn
            >> update_withdrawal_status env id TransactionStatus.processing)
          t')
unfolding update_withdrawal_status
finish-effects env req id txn t t' k =
    let (pays, fails, raises) = pay_out-effects req.method env req txn t' in
    let paid : Outcome (Unit {0}) × Trace = pay_out req.method env req txn t' in
    elim (Outcome-cases paid.0) [
      | inl (u, p) ↦ let q = pays p in (λ h. ground arith, λ e h. ground arith, λ x h. ground arith)
      | inr (inl (f, p)) ↦
          let q = fails f p in
          let r = pay_out-fails req.method env req txn t' f p in
          (λ h. ground arith, λ e h. ground arith, λ x h. ground arith)
      | inr (inr (y, p)) ↦
          let q = raises y p in (λ h. ground arith, λ e h. ground arith, λ x h. ground arith)
    ]

-- What the execution of a withdrawal does, by its outcome. Where it returns, the ledger committed one hold, the provider
-- took one payment, and no request marks the transaction as failed. An error before the commit has no effect; a refused
-- commit is followed by one request to mark the transaction as failed, whatever its answer. An error of the payment leaves
-- the hold committed without a payment, and a request to mark the transaction only if the order or the wallet's transfer was
-- refused. An error of the last update leaves the hold committed and the payment taken. Where the execution raises, the hold
-- was committed and no request marks the transaction, and the payment was taken only if the provider's reply has no data.
pub execute-effects :
    (env : Services) (req : WithdrawalRequest) (id : String) (t : Trace)
    → let (o, t') = execute_withdrawal_processing env req id t in
      (o ≡ ok tt → effects t' ≡ (1, 1, 0) plus effects t)
      × ((e : Failure) → o ≡ err e → effects t' ≡ effects_at_error e plus effects t)
      × ((x : Exception)
          → o ≡ raised x
          → effects t' ≡ (1, 0, 0) plus effects_at_raise x plus effects t)
unfolding execute_withdrawal_processing update_withdrawal_status
execute-effects env req id t =
    let (same, unfound, no_raise) = retrieve-effects env id t in
    elim (Outcome-cases (retrieve env id t).0) [
      | inl (txn, r) ↦
          let t1 = (retrieve env id t).1 in
          let (commits, refused, quiet) = commit-effects env txn t1 in
          elim (Outcome-cases (commit_hold env txn t1).0) [
            | inl (u, c) ↦
                let t2 = (commit_hold env txn t1).1 in
                let rest =
                  pay_out req.method env req txn
                  >> update_withdrawal_status env id TransactionStatus.processing in
                let run : execute_withdrawal_processing env req id t ≡ rest t2 = ground arith in
                rw (run)
                  (finish-effects env req id txn t t2 (commits c ∙ ap (λ n. (1, 0, 0) plus n) same))
            | inr (inl (f, c)) ↦
                let q = refused f c in (λ h. ground arith, λ e h. ground arith, λ x h. ground arith)
            | inr (inr (y, c)) ↦ absurd (quiet y c)
          ]
      | inr (inl (f, r)) ↦
          let q = unfound f r in (λ h. ground arith, λ e h. ground arith, λ x h. ground arith)
      | inr (inr (y, r)) ↦ absurd (no_raise y r)
    ]
