-- ===== src/Withdrawal/Checks.antt =====
-- The checks of a withdrawal only read, and what they hand on is covered by the ledger's balance.
use looprail_backend.Prelude.{
  ◌≡◌, refl, Bool, true, false, Option, none, some, String, [], ◌∷◌, ◌≤ℤ◌, arith, sym, Option-cases,
  Bool-cases, ◌⊎◌, inl, inr, if◌then◌else◌,
}
use looprail_backend.Decimal.{Decimal}
use looprail_backend.Withdrawal.World.{
  WithdrawalRequest, UserWallet, Asset, Failure, Exception, Balances, Services, Event, Trace,
  wallet_read, asset_read, rate_read, balance_read, location_read, fee_read, user_read,
  transaction_read, Outcome, ok, err, raised,
}
use looprail_backend.Withdrawal.Amounts.{RateResponse, needs_rate, fetch_if_needed}
use looprail_backend.Withdrawal.Balance.{
  balance_id_of, Needed, available_balance, effective_rate, check_balance,
}
use looprail_backend.Withdrawal.Params.{read_location}
use looprail_backend.Withdrawal.Initiate.{Checked, check_rest, check_quoted, check_request}

-- a call that changes nothing elsewhere
abbrev pub is_read : Event → Bool
is_read wallet_read = true
is_read asset_read = true
is_read rate_read = true
is_read (balance_read id answer) = true
is_read location_read = true
is_read fee_read = true
is_read user_read = true
is_read transaction_read = true
is_read _ = false

-- the calls that may change something, the latest first
abbrev pub writes : Trace → Trace
writes [] = []
writes (e ∷ t) = let rest = writes t in if is_read e then rest else e ∷ rest

effective_rate-Quiet :
    (env : Services) (req : WithdrawalRequest) (asset : Asset) (rate : RateResponse) (t : Trace)
    → writes (effective_rate env req asset rate t).1 ≡ writes t
unfolding effective_rate
effective_rate-Quiet env req asset rate t = ground arith

check_balance-Quiet :
    (env : Services) (req : WithdrawalRequest) (asset : Asset) (fee : Decimal) (rate : RateResponse)
    (t : Trace)
    → writes (check_balance env req asset fee rate t).1 ≡ writes t
unfolding check_balance
check_balance-Quiet env req asset fee rate t = ground (
  arith,
  λ (id : String) (o : Option Balances).
      effective_rate-Quiet env req asset rate (balance_read id o ∷ t),
)

pub Outcome-cases :
    {A : Type 0} (o : Outcome A)
    → ((a : A) × (o ≡ ok a)) ⊎ ((e : Failure) × (o ≡ err e)) ⊎ ((x : Exception) × (o ≡ raised x))
Outcome-cases (ok a) = inl (a, refl)
Outcome-cases (err e) = inr (inl (e, refl))
Outcome-cases (raised x) = inr (inr (x, refl))

-- the latest reading of the ledger's balance
abbrev pub latest_balance : Trace → Option (String × Balances)
latest_balance [] = none
latest_balance (e ∷ t) =
    let rest = latest_balance t in elim e [ balance_read id (some b) ↦ some (id, b) | _ ↦ rest ]

-- the amount handed on is covered by the latest reading
abbrev pub Covers : Option (String × Balances) → Asset → Needed → Type 0
Covers latest asset none = Unit
Covers latest asset (some (n, r)) =
    (id : String) × (b : Balances) × (asset.ledger_balance_id ≡ some id)
    × (latest ≡ some (id, b))
    × (n ≤ℤ available_balance b)

balance_id_of_lem :
    (asset : Asset) (id : String)
    → balance_id_of asset ≡ some id
    → asset.ledger_balance_id ≡ some id
balance_id_of_lem asset id h = ground arith

pub check_balance-covered :
    (env : Services) (req : WithdrawalRequest) (asset : Asset) (fee : Decimal) (rate : RateResponse)
    (t : Trace) (needed : Needed)
    → (check_balance env req asset fee rate t).0 ≡ ok needed
    → Covers (latest_balance (check_balance env req asset fee rate t).1) asset needed
unfolding check_balance
check_balance-covered env req asset fee rate t none h = tt
check_balance-covered env req asset fee rate t (some (n, r)) h =
    elim (Option-cases (balance_id_of asset)) [
      | inl missing ↦ ground arith
      | inr (id, e) ↦ elim (Option-cases (env.get_balance id t)) [
        | inl unread ↦ ground arith
        | inr (b, read) ↦ (id, b, balance_id_of_lem asset id e, ground arith, ground arith)
      ]
    ]

-- the rate and the calls so far, where the balance is checked
abbrev pub quoted : Services → WithdrawalRequest → Trace → RateResponse × Trace
quoted env req t =
    if needs_rate req.currency req.method
    then (env.fetch_rate req.amount t, rate_read ∷ t)
    else (none, t)

fetch_if_needed_lem :
    (env : Services) (req : WithdrawalRequest) (t : Trace)
    → fetch_if_needed env req t ≡ (ok (quoted env req t).0, (quoted env req t).1)
unfolding fetch_if_needed
fetch_if_needed_lem env req t = elim (Bool-cases (needs_rate req.currency req.method)) [
  | inl e ↦ rw (e) refl
  | inr e ↦ rw (e) refl
]

-- the checks, once the wallet and the asset are found
pub check_request-found :
    (env : Services) (req : WithdrawalRequest) (t : Trace) (own : UserWallet) (asset : Asset)
    → env.get_wallet t ≡ some own
    → env.get_asset (wallet_read ∷ t) ≡ some asset
    → let (rate, t') = quoted env req (asset_read ∷ wallet_read ∷ t) in
      check_request env req t ≡ check_quoted env req own asset rate t'
unfolding check_request
check_request-found env req t own asset w a =
    ground (arith, fetch_if_needed_lem env req (asset_read ∷ wallet_read ∷ t))

check_quoted-Quiet :
    (env : Services) (req : WithdrawalRequest) (own : UserWallet) (asset : Asset)
    (rate : RateResponse) (t : Trace)
    → writes (check_quoted env req own asset rate t).1 ≡ writes t
unfolding check_quoted check_rest read_location check_balance effective_rate
check_quoted-Quiet env req own asset rate t = ground arith

pub check_request-Quiet :
    (env : Services) (req : WithdrawalRequest) (t : Trace)
    → writes (check_request env req t).1 ≡ writes t
unfolding check_request
check_request-Quiet env req t = elim (Option-cases (env.get_wallet t)) [
  | inl e ↦ ground arith
  | inr (own, w) ↦ elim (Option-cases (env.get_asset (wallet_read ∷ t))) [
    | inl e ↦ ground arith
    | inr (asset, a) ↦
        let (rate, t') = quoted env req (asset_read ∷ wallet_read ∷ t) in
        let quiet = check_quoted-Quiet env req own asset rate t' in
        let found : writes (check_request env req t).1 ≡ writes t' =
          rw (check_request-found env req t own asset w a) quiet in
        ground arith
  ]
]

-- the balance check of a request that passes
check_quoted-balance :
    (env : Services) (req : WithdrawalRequest) (own : UserWallet) (asset : Asset)
    (rate : RateResponse) (t : Trace) (c : Checked)
    → (check_quoted env req own asset rate t).0 ≡ ok c
    → let balance : Outcome Needed × Trace = check_balance env req c.asset c.fee rate t in
      (balance.0 ≡ ok c.needed)
      × (latest_balance (check_quoted env req own asset rate t).1 ≡ latest_balance balance.1)
unfolding check_quoted check_rest read_location
check_quoted-balance env req own asset rate t c h = ground arith

check_quoted-covered :
    (env : Services) (req : WithdrawalRequest) (own : UserWallet) (asset : Asset)
    (rate : RateResponse) (t : Trace) (c : Checked)
    → (check_quoted env req own asset rate t).0 ≡ ok c
    → Covers (latest_balance (check_quoted env req own asset rate t).1) c.asset c.needed
check_quoted-covered env req own asset rate t c h =
    let (passed, latest) = check_quoted-balance env req own asset rate t c h in
    rw (latest) (check_balance-covered env req c.asset c.fee rate t c.needed passed)

pub check_request-covered :
    (env : Services) (req : WithdrawalRequest) (t : Trace) (c : Checked)
    → (check_request env req t).0 ≡ ok c
    → Covers (latest_balance (check_request env req t).1) c.asset c.needed
unfolding check_request
check_request-covered env req t c h = elim (Option-cases (env.get_wallet t)) [
  | inl e ↦ ground arith
  | inr (own, w) ↦ elim (Option-cases (env.get_asset (wallet_read ∷ t))) [
    | inl e ↦ ground arith
    | inr (asset, a) ↦
        let (rate, t') = quoted env req (asset_read ∷ wallet_read ∷ t) in
        let run = check_request-found env req t own asset w a in
        rw (run) (check_quoted-covered env req own asset rate t' c (rw (sym run) h))
  ]
]
