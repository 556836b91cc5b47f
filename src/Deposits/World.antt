-- ===== src/Deposits/World.antt =====
-- The data of a deposit's tasks, their state and the services that they call.
use looprail_backend.Prelude.{
  ℕ, ◌≡◌, ◌⊎◌, inl, inr, refl, ap, ◌∙◌, Bool, true, false, Option, none, some, String, List, [],
  ◌∷◌, ◌==◌, str_eq, if◌then◌else◌,
}
use looprail_backend.Config.{WalletEntry, CountriesData}
use looprail_backend.Decimal.{Decimal}
use looprail_backend.Database.{Database}
use looprail_backend.Transactions.{
  Transaction, TransactionStatus, Detail, deposit_detail, DepositFields, Books,
}
use looprail_backend.Deposits.StageLock.{StageLock}

-- `DepositSuccessData`, as far as the tasks read it
pub record Event : Type 0 where
  pub reference : String
  pub sender_address : String
  pub recipient_address : String
  pub amount : String
  pub fee : Option String
  pub currency : String
  pub hash : Option String
  pub session_id : Option ℕ
  -- "Credit of {amount} {currency}"
  pub narration : String
  pub source_wallet_id : String
  pub source_asset_id : String

-- a row of `Wallet`, with its `UserId` as a text
pub record WalletRow : Type 0 where
  pub id : ℕ
  pub owner : String

-- a row of `Asset`
pub record AssetRow : Type 0 where
  pub id : ℕ
  pub symbol : String
  pub ledger_balance_id : Option String

-- `find_one`, which raises where several rows match
pub data Lookup (A : Type 0) : Type 0 where
  missing several : Lookup A
  one : A → Lookup A

-- `RecordTransactionRequest` from the world's ledger, inflight; the precision is the source asset's,
-- and the reference is unique to the row
pub record LedgerRequest : Type 0 where
  pub amount : Decimal
  pub source_asset_id : String
  pub currency : String
  pub destination : String
  pub reference : ℕ

-- a call of the lock or the ledger, with its answer
pub data Call : Type 0 where
  acquired released : Call
  recorded : LedgerRequest → Option String → Call
  committed : Option String → Bool → Call
  -- `lock.set_state`, whatever it answers
  staged : String → Call

-- What the tasks call. The answers of the ledger may depend on all calls before.
pub record Services : Type 0 where
  pub wallets : List WalletEntry
  pub countries : CountriesData
  -- `Decimal(text)`, where the text is one
  pub read_decimal : String → Option Decimal
  pub find_wallet : String → Lookup WalletRow
  pub find_asset : ℕ → String → Lookup AssetRow
  -- the database takes a flush
  pub accepts : Books → Bool
  -- the id of a new row, with its reference
  pub new_id : Books → ℕ
  pub record_transaction : LedgerRequest → List Call → Option String
  pub commit_inflight : Option String → List Call → Bool
  -- What a rollback leaves of a changed row: the rows that the next flush of it would write, or none where it raises.
  pub rewritten : Transaction → Books → Option Books
  -- What follows the call that releases the lock of a settled deposit goes through, or raises: nothing where the release
  -- is refused, and else the notification and the mail. These read the transaction's wallet, which may not be loaded.
  pub notifies : List Call → Bool

-- an error that a task logs before it returns
pub data Refusal : Type 0 where
  not_acquired : Refusal
  no_source_wallet no_source_asset no_wallet no_asset : Refusal
  not_created not_recorded not_updated : Refusal
  no_transaction invalid_amount not_committed : Refusal

pub data Exception : Type 0 where
  multiple_results name_error invalid_operation validation_error attribute_error : Exception
  expired_row not_notified : Exception

pub data Outcome (A : Type 0) : Type 0 where
  ok : A → Outcome A
  refused : Refusal → Outcome A
  raised : Exception → Outcome A

pub Outcome-cases :
    {A : Type 0} (o : Outcome A)
    → ((a : A) × (o ≡ ok a))
      ⊎ ((e : Refusal) × (o ≡ refused e))
      ⊎ ((x : Exception) × (o ≡ raised x))
Outcome-cases (ok a) = inl (a, refl)
Outcome-cases (refused e) = inr (inl (e, refl))
Outcome-cases (raised x) = inr (inr (x, refl))

pub record World (l : StageLock) : Type 0 where
  pub database : Database Books
  pub store : l.Store
  -- the latest first
  pub calls : List Call

-- queries of the transactions
module _ where
  abbrev pub same_text : Option String → Option String → Bool
  same_text none none = true
  same_text (some a) (some b) = str_eq a b
  same_text _ _ = false

  abbrev pub hash_of : Transaction → Option String
  hash_of t = elim t.chain [ none ↦ none | some c ↦ some c.transaction_hash ]

  abbrev pub matching : (Transaction → Bool) → List Transaction → List Transaction
  matching p [] = []
  matching p (t ∷ ts) = let rest = matching p ts in if p t then t ∷ rest else rest

  -- `DatabaseMixin.find_one`
  unfoldable pub find_one : (Transaction → Bool) → List Transaction → Lookup Transaction
  find_one p rows = elim (matching p rows) [
    | [] ↦ missing
    | t ∷ [] ↦ one t
    | t ∷ u ∷ more ↦ several
  ]

  abbrev pub deposit_of : ℕ → List Detail → Option DepositFields
  deposit_of id [] = none
  deposit_of id (d ∷ ds) =
      let rest = deposit_of id ds in
      elim d [ deposit_detail k f ↦ if k == id then some f else rest | _ ↦ rest ]

  abbrev pub restage : ℕ → String → Detail → Detail
  restage id stage d = elim d [
    | deposit_detail k f ↦
        if k == id
        then deposit_detail k (record f { deposit_stage = stage })
        else deposit_detail k f
    | other ↦ other
  ]

  abbrev pub put_stage : ℕ → String → List Detail → List Detail
  put_stage id stage [] = []
  put_stage id stage (d ∷ ds) = restage id stage d ∷ put_stage id stage ds

  abbrev pub is_completed : Transaction → Bool
  is_completed t = elim t.status [ TransactionStatus.completed ↦ true | _ ↦ false ]

-- an asynchronous method: it changes the world, and returns, returns an error or raises
abbrev pub Action : StageLock → Type 0 → Type 0
Action l A = World l → Outcome A × World l

-- `await lock.release(...)`, whatever it answers
abbrev pub released_world : {l : StageLock} → World l → World l
released_world {l = l} w = record w { store = (l.release w.store).1; calls = released ∷ w.calls }

module _ {l : StageLock} {A : Type 0} where
  abbrev pub pure : A → Action l A
  pure a w = (ok a, w)

  abbrev pub raise : Exception → Action l A
  raise e w = (raised e, w)

  -- the lock is released, and the error returned
  abbrev pub refuse : Refusal → Action l A
  refuse why w = (refused why, released_world w)

  -- a query, where a missing row is `why`
  abbrev pub require : Refusal → Lookup A → Action l A
  require why missing = refuse why
  require why several = raise multiple_results
  require why (one a) = pure a

-- what follows an action's end
abbrev pub proceed :
    {l : StageLock} {A B : Type 0} → (A → Action l B) → Outcome A × World l → Outcome B × World l
proceed f (o, w) = elim o [ ok a ↦ f a w | refused e ↦ (refused e, w) | raised x ↦ (raised x, w) ]

infixl 5 ◌>>=◌ ◌>>◌
unfoldable pub ◌>>=◌ : {l : StageLock} {A B : Type 0} → Action l A → (A → Action l B) → Action l B
◌>>=◌ m f w = proceed f (m w)

abbrev pub ◌>>◌ : {l : StageLock} {A B : Type 0} → Action l A → Action l B → Action l B
m >> k = m >>= λ _. k

-- runs of two actions, one after the other
module _ {l : StageLock} {A B : Type 0} where
  pub bind-ok :
      (m : Action l A) (f : A → Action l B) (w w' : World l) (a : A)
      → m w ≡ (ok a, w')
      → (m >>= f) w ≡ f a w'
  unfolding ◌>>=◌
  bind-ok m f w w' a h = ap (λ r. proceed f r) h

  -- the same, with the rest of the run
  pub bind_then :
      (m : Action l A) (f : A → Action l B) (w w' : World l) (a : A) (r : Outcome B × World l)
      → m w ≡ (ok a, w')
      → f a w' ≡ r
      → (m >>= f) w ≡ r
  bind_then m f w w' a r h k = bind-ok m f w w' a h ∙ k

  pub bind-refused :
      (m : Action l A) (f : A → Action l B) (w w' : World l) (e : Refusal)
      → m w ≡ (refused e, w')
      → (m >>= f) w ≡ (refused e, w')
  unfolding ◌>>=◌
  bind-refused m f w w' e h = ap (λ r. proceed f r) h
