-- ===== src/Withdrawal/Holds.antt =====
-- The holds on the ledger that the start of a withdrawal leaves behind.
use looprail_backend.Prelude.{
  ℕ, suc, ◌+◌, ◌≡◌, Bool, true, false, some, String, [], ◌∷◌, arith, sym, Option-cases, inl, inr,
}
use looprail_backend.Decimal.{Decimal}
use looprail_backend.Withdrawal.World
use looprail_backend.Withdrawal.World.{
  WithdrawalRequest, UserWallet, Asset, Failure, Exception, Balances, Services, Event, Trace,
  Transaction, LedgerRequest, hold_recorded, hold_voided, Outcome, ok, err, raised, no_rate,
  no_network_fee,
}
use looprail_backend.Withdrawal.Amounts.{RateResponse, bank_minimum, check_amounts}
use looprail_backend.Withdrawal.Balance.{Needed, effective_rate, inverse_rate, check_balance}
use looprail_backend.Withdrawal.Params.{check_destination, read_location, build_params}
use looprail_backend.Withdrawal.Initiate.{
  mark_failed, link_hold, reserve, require_rate, require_provider_asset, quote_network_fee,
  hold_and_quote, Checked, check_rest, check_quoted, check_request, initiate_withdrawal,
}
use looprail_backend.Withdrawal.Checks.{
  writes, quoted, check_request-found, Outcome-cases, check_request-Quiet,
}

-- the holds that the ledger accepted
abbrev pub placed : Trace → ℕ
placed [] = 0
placed (e ∷ t) = let rest = placed t in elim e [ hold_recorded r (some id) ↦ suc rest | _ ↦ rest ]

-- the requests to void a hold, whatever the ledger answers
abbrev pub void_requests : Trace → ℕ
void_requests [] = 0
void_requests (e ∷ t) =
    let rest = void_requests t in elim e [ hold_voided id a ↦ suc rest | _ ↦ rest ]

writes_lem :
    (t : Trace) → (placed (writes t) ≡ placed t) × (void_requests (writes t) ≡ void_requests t)
writes_lem [] = ground arith
writes_lem (e ∷ t) = ground (arith, writes_lem t)

-- the holds placed and the requests to void one, where a withdrawal's start ends in an error
abbrev pub holds_at_error : Failure → ℕ × ℕ
holds_at_error no_rate = (1, 1)
holds_at_error no_network_fee = (1, 0)
holds_at_error _ = (0, 0)

reserve-holds :
    (env : Services) (req : WithdrawalRequest) (asset : Asset) (fee : Decimal) (needed : Needed)
    (txn : Transaction) (t : Trace)
    → let (o, t') = reserve env req asset fee needed txn t in
      ((linked : Transaction)
        → o ≡ ok linked
        → (placed t' ≡ 1 + placed t) × (void_requests t' ≡ void_requests t))
      × ((e : Failure)
          → o ≡ err e
          → (placed t' ≡ (holds_at_error e).0 + placed t)
            × (void_requests t' ≡ (holds_at_error e).1 + void_requests t))
unfolding reserve link_hold mark_failed
reserve-holds env req asset fee needed txn t = (λ id h. ground arith, λ e h. ground arith)

hold_and_quote-holds :
    (env : Services) (req : WithdrawalRequest) (asset : Asset) (fee : Decimal) (needed : Needed)
    (txn : Transaction) (t : Trace)
    → let (o, t') = hold_and_quote env req asset fee needed txn t in
      ((id : String)
        → o ≡ ok id
        → (placed t' ≡ 1 + placed t) × (void_requests t' ≡ void_requests t))
      × ((e : Failure)
          → o ≡ err e
          → (placed t' ≡ (holds_at_error e).0 + placed t)
            × (void_requests t' ≡ (holds_at_error e).1 + void_requests t))
unfolding hold_and_quote reserve link_hold mark_failed require_rate require_provider_asset
    quote_network_fee
hold_and_quote-holds env req asset fee needed txn t = (λ id h. ground arith, λ e h. ground arith)

-- the errors of the checks
abbrev pub is_refusal : Failure → Bool
is_refusal World.no_wallet = true
is_refusal World.no_asset = true
is_refusal World.below_minimum = true
is_refusal World.no_balance = true
is_refusal World.no_conversion_rate = true
is_refusal World.insufficient_balance = true
is_refusal World.self_transfer = true
is_refusal _ = false

hold_and_quote-accepts :
    (env : Services) (req : WithdrawalRequest) (asset : Asset) (fee : Decimal) (needed : Needed)
    (txn : Transaction) (t : Trace) (e : Failure)
    → (hold_and_quote env req asset fee needed txn t).0 ≡ err e
    → is_refusal e ≡ false
unfolding hold_and_quote reserve link_hold mark_failed require_rate require_provider_asset
    quote_network_fee
hold_and_quote-accepts env req asset fee needed txn t e h = ground arith

check_request-holds :
    (env : Services) (req : WithdrawalRequest) (t : Trace)
    → let t' = (check_request env req t).1 in
      (placed t' ≡ placed t) × (void_requests t' ≡ void_requests t)
check_request-holds env req t =
    let t' = (check_request env req t).1 in
    ground (arith, check_request-Quiet env req t, writes_lem t, writes_lem t')

check_balance-fails :
    (env : Services) (req : WithdrawalRequest) (asset : Asset) (fee : Decimal) (rate : RateResponse)
    (t : Trace) (e : Failure)
    → (check_balance env req asset fee rate t).0 ≡ err e
    → is_refusal e ≡ true
unfolding check_balance effective_rate inverse_rate
check_balance-fails env req asset fee rate t e h = ground arith

check_amounts-fails :
    (req : WithdrawalRequest) (rate : RateResponse) (e : Failure)
    → check_amounts req rate ≡ err e
    → is_refusal e ≡ true
unfolding check_amounts bank_minimum
check_amounts-fails req rate e h = ground arith

check_rest-fails :
    (env : Services) (req : WithdrawalRequest) (own : UserWallet) (asset : Asset) (fee : Decimal)
    (needed : Needed) (t : Trace) (e : Failure)
    → (check_rest env req own asset fee needed t).0 ≡ err e
    → is_refusal e ≡ true
unfolding check_rest check_destination read_location build_params
check_rest-fails env req own asset fee needed t e h = ground arith

check_quoted-fails :
    (env : Services) (req : WithdrawalRequest) (own : UserWallet) (asset : Asset)
    (rate : RateResponse) (t : Trace) (e : Failure)
    → (check_quoted env req own asset rate t).0 ≡ err e
    → is_refusal e ≡ true
unfolding check_quoted
check_quoted-fails env req own asset rate t e h = elim (Outcome-cases (check_amounts req rate)) [
  | inl (fee, k) ↦
      let balance : Outcome Needed × Trace = check_balance env req asset fee rate t in
      elim (Outcome-cases balance.0) [
        | inl (needed, l) ↦ check_rest-fails env req own asset fee needed balance.1 e (ground arith)
        | inr (inl (e', l)) ↦ ground (arith, check_balance-fails env req asset fee rate t e' l)
        | inr (inr (x, l)) ↦ ground arith
      ]
  | inr (inl (e', k)) ↦ ground (arith, check_amounts-fails req rate e' k)
  | inr (inr (x, k)) ↦ ground arith
]

check_request-fails :
    (env : Services) (req : WithdrawalRequest) (t : Trace) (e : Failure)
    → (check_request env req t).0 ≡ err e
    → is_refusal e ≡ true
unfolding check_request
check_request-fails env req t e h = elim (Option-cases (env.get_wallet t)) [
  | inl missing ↦ ground arith
  | inr (own, w) ↦ elim (Option-cases (env.get_asset (World.wallet_read ∷ t))) [
    | inl missing ↦ ground arith
    | inr (asset, a) ↦
        let (rate, t') = quoted env req (World.asset_read ∷ World.wallet_read ∷ t) in
        check_quoted-fails env req own asset rate t' e
          (rw (sym (check_request-found env req t own asset w a)) h)
  ]
]

-- the rest of a withdrawal's start, once the checks pass and the local transaction is there
pub initiate-created :
    (env : Services) (req : WithdrawalRequest) (t : Trace) (c : Checked) (txn : Transaction)
    → (check_request env req t).0 ≡ ok c
    → env.create_transaction c.params (check_request env req t).1 ≡ some txn
    → initiate_withdrawal env req t
      ≡ hold_and_quote env req c.asset c.fee c.needed txn
          (World.transaction_created c.params true ∷ (check_request env req t).1)
unfolding initiate_withdrawal
initiate-created env req t c txn k created = ground arith

-- A request that is refused by a check changes nothing elsewhere: neither the local transactions nor the
-- ledger. Each of the errors of `is_refusal` is such a refusal.
pub refused_writes_nothing :
    (env : Services) (req : WithdrawalRequest) (t : Trace) (e : Failure)
    → (initiate_withdrawal env req t).0 ≡ err e
    → is_refusal e ≡ true
    → writes (initiate_withdrawal env req t).1 ≡ writes t
unfolding initiate_withdrawal
refused_writes_nothing env req t e h r =
    let t' = (check_request env req t).1 in
    let quiet = check_request-Quiet env req t in
    elim (Outcome-cases (check_request env req t).0) [
      | inl (c, k) ↦ elim (Option-cases (env.create_transaction c.params t')) [
        | inl missing ↦ ground arith
        | inr (txn, created) ↦
            let accepts =
              hold_and_quote-accepts env req c.asset c.fee c.needed txn
                (World.transaction_created c.params true ∷ t') e in
            ground (arith, initiate-created env req t c txn k created)
      ]
      | inr (inl k) ↦ ground arith
      | inr (inr k) ↦ ground arith
    ]

-- Where the start of a withdrawal returns or returns an error, the ledger took so many holds, and so many requests to void
-- one followed, whatever the ledger answers to these: one hold and no request where the withdrawal starts; one hold and one
-- request where no rate is found; one hold and no request where no network fee is found; and neither with any other error.
pub initiate-holds :
    (env : Services) (req : WithdrawalRequest) (t : Trace)
    → let (o, t') = initiate_withdrawal env req t in
      ((id : String)
        → o ≡ ok id
        → (placed t' ≡ 1 + placed t) × (void_requests t' ≡ void_requests t))
      × ((e : Failure)
          → o ≡ err e
          → (placed t' ≡ (holds_at_error e).0 + placed t)
            × (void_requests t' ≡ (holds_at_error e).1 + void_requests t))
unfolding initiate_withdrawal
initiate-holds env req t =
    let t' = (check_request env req t).1 in
    elim (Outcome-cases (check_request env req t).0) [
      | inl (c, k) ↦ elim (Option-cases (env.create_transaction c.params t')) [
        | inl missing ↦
            let q = check_request-holds env req t in (λ id h. ground arith, λ e h. ground arith)
        | inr (txn, created) ↦
            let q =
              hold_and_quote-holds env req c.asset c.fee c.needed txn
                (World.transaction_created c.params true ∷ t') in
            let r = check_request-holds env req t in
            let run = initiate-created env req t c txn k created in
            (
              λ id h. let p = q.0 id (rw (sym run) h) in ground arith,
              λ e h. let p = q.1 e (rw (sym run) h) in ground arith,
            )
      ]
      | inr (inl (e', k)) ↦ (
        λ id h. ground arith,
        λ e h. ground (arith, check_request-fails env req t e', check_request-holds env req t),
      )
      | inr (inr (x, k)) ↦ (λ id h. ground arith, λ e h. ground arith)
    ]
