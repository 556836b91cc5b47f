-- ===== src/Withdrawal/Covered.antt =====
-- A hold is covered by the balance that the ledger reported for its source.
use looprail_backend.Prelude.{
  ◌≡◌, refl, Bool, true, false, not, ◌&&◌, Option, none, some, String, [], ◌∷◌, ℤ, ltb_ℤ, arith,
  ◌∙◌, Option-cases, inl, inr, str_eq, str_eq_iff,
}
use looprail_backend.Decimal.{Decimal}
use looprail_backend.Withdrawal.World
use looprail_backend.Withdrawal.World.{
  WithdrawalRequest, UserWallet, Asset, Failure, Exception, Balances, Services, Event, Trace,
  Transaction, LedgerRequest, hold_recorded, hold_voided, Outcome, ok, err, raised,
}
use looprail_backend.Withdrawal.Amounts.{RateResponse}
use looprail_backend.Withdrawal.Balance.{Needed, available_balance, effective_rate, check_balance}
use looprail_backend.Withdrawal.Params.{read_location}
use looprail_backend.Withdrawal.Initiate.{
  ledger_request, mark_failed, void_hold, link_hold, reserve, require_rate, require_provider_asset,
  quote_network_fee, hold_and_quote, check_rest, check_quoted, check_request, initiate_withdrawal,
}
use looprail_backend.Withdrawal.Checks.{
  latest_balance, Covers, Outcome-cases, check_request-covered, quoted, check_request-found,
}
use looprail_backend.Withdrawal.Holds.{initiate-created}

abbrev pub is_source : Option String → String → Bool
is_source none id = false
is_source (some s) id = str_eq s id

-- the hold takes no more than what was available at its source
abbrev pub is_covered_by : Option (String × Balances) → LedgerRequest → Bool
is_covered_by none r = false
is_covered_by (some (id, b)) r = is_source r.source id && not (ltb_ℤ (available_balance b) r.amount)

-- every hold that the ledger accepted is covered by the balance read last before it
abbrev pub is_covered : Trace → Bool
is_covered [] = true
is_covered (e ∷ t) =
    let rest = is_covered t in
    elim e [ hold_recorded r (some id) ↦ is_covered_by (latest_balance t) r && rest | _ ↦ rest ]

check_quoted-is_covered :
    (env : Services) (req : WithdrawalRequest) (own : UserWallet) (asset : Asset)
    (rate : RateResponse) (t : Trace)
    → is_covered (check_quoted env req own asset rate t).1 ≡ is_covered t
unfolding check_quoted check_rest read_location check_balance effective_rate
check_quoted-is_covered env req own asset rate t = ground arith

check_request-is_covered :
    (env : Services) (req : WithdrawalRequest) (t : Trace)
    → is_covered (check_request env req t).1 ≡ is_covered t
unfolding check_request
check_request-is_covered env req t = elim (Option-cases (env.get_wallet t)) [
  | inl e ↦ ground arith
  | inr (own, w) ↦ elim (Option-cases (env.get_asset (World.wallet_read ∷ t))) [
    | inl e ↦ ground arith
    | inr (asset, a) ↦
        let (rate, t') = quoted env req (World.asset_read ∷ World.wallet_read ∷ t) in
        let kept = check_quoted-is_covered env req own asset rate t' in
        let found : is_covered (check_request env req t).1 ≡ is_covered t' =
          rw (check_request-found env req t own asset w a) kept in
        ground arith
  ]
]

Covers→is_covered_by :
    (latest : Option (String × Balances)) (asset : Asset) (n : ℤ) (r : Option Decimal)
    (fee : Decimal) (req : WithdrawalRequest) (txn : Transaction)
    → Covers latest asset (some (n, r))
    → is_covered_by latest (ledger_request req asset fee n r txn) ≡ true
unfolding ledger_request
Covers→is_covered_by latest asset n r fee req txn (id, b, e, l, n≤) =
    ground (arith, (str_eq_iff id id).1 refl)

hold_and_quote-is_covered :
    (env : Services) (req : WithdrawalRequest) (asset : Asset) (fee : Decimal) (needed : Needed)
    (txn : Transaction) (t : Trace)
    → Covers (latest_balance t) asset needed
    → is_covered t ≡ true
    → is_covered (hold_and_quote env req asset fee needed txn t).1 ≡ true
unfolding hold_and_quote reserve link_hold mark_failed void_hold require_rate require_provider_asset
    quote_network_fee
hold_and_quote-is_covered env req asset fee none txn t k h = ground arith
hold_and_quote-is_covered env req asset fee (some (n, r)) txn t k h =
    ground (arith, Covers→is_covered_by (latest_balance t) asset n r fee req txn k)

-- If every hold in the record of the calls is covered by the balance that was read last before it, then so it
-- is after a withdrawal has started, whatever its outcome. A hold is covered if that balance is its source's,
-- and its amount is at most what was available there, without the debits in flight and in the queue.
pub initiate-is_covered :
    (env : Services) (req : WithdrawalRequest) (t : Trace)
    → is_covered t ≡ true
    → is_covered (initiate_withdrawal env req t).1 ≡ true
unfolding initiate_withdrawal
initiate-is_covered env req t h =
    let t' = (check_request env req t).1 in
    let kept = check_request-is_covered env req t in
    elim (Outcome-cases (check_request env req t).0) [
      | inl (c, k) ↦ elim (Option-cases (env.create_transaction c.params t')) [
        | inl missing ↦ ground arith
        | inr (txn, created) ↦ rw (initiate-created env req t c txn k created) (
            hold_and_quote-is_covered env req c.asset c.fee c.needed txn
              (World.transaction_created c.params true ∷ t') (check_request-covered env req t c k)
              (kept ∙ h))
      ]
      | inr (inl k) ↦ ground arith
      | inr (inr k) ↦ ground arith
    ]
