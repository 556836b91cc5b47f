-- ===== src/Deposits/Counting.antt =====
-- How often the actions of a deposit's tasks release the lock.
use looprail_backend.Prelude.{ℕ, suc, ◌+◌, ◌≡◌, String, List, [], ◌∷◌, arith, inl, inr}
use looprail_backend.Config.{AssetData}
use looprail_backend.Transactions.{Transaction, CreateTransactionParams}
use looprail_backend.Deposits.StageLock.{StageLock}
use looprail_backend.Deposits.World
use looprail_backend.Deposits.World.{
  Event, WalletRow, AssetRow, Lookup, Call, acquired, released, Services, LedgerRequest, Refusal,
  Exception, Outcome, Outcome-cases, bind-ok, bind-refused, ok, refused, raised, World, Action,
  pure, refuse, require, ◌>>=◌, ◌>>◌, is_completed, find_one, same_text, hash_of,
}
use looprail_backend.Deposits.Params.{params_from_event}
use looprail_backend.Deposits.Initialize.{
  resolve_source, balance_of, create_row, find_or_create, write_row, call_record, link_ledger,
  record_inflight, cache_stage, initialize_deposit_transaction, flush_again, flush_rows,
}

-- the acquisitions that succeeded, and the releases
abbrev pub acquisitions : List Call → ℕ
acquisitions [] = 0
acquisitions (c ∷ cs) = let rest = acquisitions cs in elim c [ acquired ↦ suc rest | _ ↦ rest ]

abbrev pub releases : List Call → ℕ
releases [] = 0
releases (c ∷ cs) = let rest = releases cs in elim c [ released ↦ suc rest | _ ↦ rest ]

-- Where the action returns, it makes `done` releases; where it returns an error, it makes one.
abbrev pub Releases : {l : StageLock} {A : Type 0} → ℕ → Action l A → Type 0
Releases {l = l} {A = A} done m =
    (w : World l)
    → let (o, w') = m w in
      ((a : A)
        → o ≡ ok a
        → (releases w'.calls ≡ done + releases w.calls)
          × (acquisitions w'.calls ≡ acquisitions w.calls))
      × ((e : Refusal)
          → o ≡ refused e
          → (releases w'.calls ≡ 1 + releases w.calls)
            × (acquisitions w'.calls ≡ acquisitions w.calls))

module _ {l : StageLock} where
  pub bind-Releases :
      {A B : Type 0} (done : ℕ) (m : Action l A) (f : A → Action l B)
      → Releases 0 m
      → ((a : A) → Releases done (f a))
      → Releases done (m >>= f)
  unfolding ◌>>=◌
  bind-Releases done m f first rest w =
      let (o, w') = m w in
      elim (Outcome-cases o) [
        | inl (a, h) ↦ (
          λ b k. ground (arith, (first w).0 a h, (rest a w').0 b),
          λ e k. ground (arith, (first w).0 a h, (rest a w').1 e),
        )
        | inr (inl (e, h)) ↦ (λ b k. ground arith, λ e' k. ground (arith, (first w).1 e h))
        | inr (inr (x, h)) ↦ (λ b k. ground arith, λ e k. ground arith)
      ]

  pub require-Releases :
      {A : Type 0} (why : Refusal) (found : Lookup A) → Releases 0 (require {l = l} why found)
  require-Releases why found w = (λ a h. ground arith, λ e h. ground arith)

  pub pure-Releases : {A : Type 0} (a : A) → Releases 0 (pure {l = l} a)
  pure-Releases a w = (λ a' h. ground arith, λ e h. ground arith)

module _ (l : StageLock) (env : Services) (event : Event) where
  pub resolve_source-Releases : Releases 0 (resolve_source l env event)
  unfolding resolve_source
  resolve_source-Releases w = (λ a h. ground arith, λ e h. ground arith)

  pub balance_of-Releases : (asset : AssetRow) → Releases 0 (balance_of l asset)
  unfolding balance_of
  balance_of-Releases asset w = (λ a h. ground arith, λ e h. ground arith)

  pub find_or_create-Releases :
      (params : CreateTransactionParams) → Releases 0 (find_or_create l env event params)
  unfolding find_or_create create_row
  find_or_create-Releases params w = (λ a h. ground arith, λ e h. ground arith)

  pub call_record-Releases : (request : LedgerRequest) → Releases 0 (call_record l env request)
  unfolding call_record
  call_record-Releases request w = (λ a h. ground arith, λ e h. ground arith)

  pub link_ledger-Releases :
      (id : ℕ) (ledger_id : String) → Releases 0 (link_ledger l env event id ledger_id)
  unfolding link_ledger write_row flush_again flush_rows
  link_ledger-Releases id ledger_id w = (λ a h. ground arith, λ e h. ground arith)

  pub record_inflight-Releases :
      (source : AssetData) (asset : AssetRow) (balance : String) (t : Transaction)
      → Releases 0 (record_inflight l env event source asset balance t)
  unfolding ◌>>=◌ record_inflight call_record link_ledger write_row flush_again flush_rows
  record_inflight-Releases source asset balance t w = (λ a h. ground arith, λ e h. ground arith)

  pub params-Releases :
      (o : Outcome CreateTransactionParams)
      → ((e : Refusal) → ¬ (o ≡ refused e))
      → Releases {l = l} 0 (λ w. (o, w))
  params-Releases o h w = (λ a k. ground arith, λ e k. ground (arith, h e))

  pub cache_stage-Releases : (stage : String) → Releases 0 (cache_stage l stage)
  unfolding cache_stage
  cache_stage-Releases stage w = (λ a h. ground arith, λ e h. ground arith)

  params-not_refused :
      (wallet : WalletRow) (asset : AssetRow) (e : Refusal)
      → ¬ (params_from_event env event wallet asset ≡ refused e)
  unfolding params_from_event
  params-not_refused wallet asset e h = ground arith

  pub initialize-Releases : Releases 0 (initialize_deposit_transaction l env event)
  unfolding initialize_deposit_transaction
  initialize-Releases = bind-Releases 0 _ _ resolve_source-Releases (λ source.
      bind-Releases 0 _ _
        (require-Releases World.no_wallet (env.find_wallet event.recipient_address))
        (λ wallet.
          bind-Releases 0 _ _
            (require-Releases World.no_asset (env.find_asset wallet.id source.asset_id))
            (λ asset. bind-Releases 0 _ _ (balance_of-Releases asset) (λ balance.
              bind-Releases 0 _ _
                (params-Releases (params_from_event env event wallet asset)
                  (λ e. params-not_refused wallet asset e))
                (λ params. bind-Releases 0 _ _ (find_or_create-Releases params) (λ row.
                  bind-Releases 0 _ _ (record_inflight-Releases source asset balance row) (λ t.
                    bind-Releases 0 _ _ (cache_stage-Releases "received")
                      (λ u. pure-Releases t))))))))
