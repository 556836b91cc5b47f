-- ===== src/Deposits/Moves.antt =====
-- The parts of a deposit's tasks as moves of the abstract machine.
use looprail_backend.Prelude.{
  ℕ, ◌≡◌, refl, true, false, Option, none, some, String, ◌∷◌, arith, Bool-cases, Option-cases, inl,
  inr,
}
use looprail_backend.Config.{AssetData}
use looprail_backend.Transactions.{Transaction, CreateTransactionParams}
use looprail_backend.Deposits.StageLock.{StageLock}
use looprail_backend.Deposits.Initialize.{
  flush_again, flush_rows, resolve_source, balance_of, create_row, find_or_create, write_row,
  call_record, link_ledger, record_inflight, cache_stage, initialize_deposit_transaction,
  has_ledger_id,
}
use looprail_backend.Deposits.Params.{params_from_event}
use looprail_backend.Deposits.Tasks.{
  notify, finish, call_commit, complete_row, check_amount, settle,
}
use looprail_backend.Deposits.World
use looprail_backend.Deposits.World.{
  Event, WalletRow, AssetRow, Lookup, missing, several, one, Call, Services, LedgerRequest, Outcome,
  ok, refused, raised, World, Action, pure, refuse, require, ◌>>=◌, bind-ok, proceed, is_completed,
  find_one, same_text, hash_of, released_world,
}
use looprail_backend.Deposits.Stages.{
  Phase, begun, entered, received, settled, swept, View, ◌⟶◌, enter, known, receive, uncached,
  commit, sweep, unswept, ◌⟶*◌, here, next, caching, marks_of, view, Moved, Moves, bind-Moves, stay,
  Quiet-Moves,
}

module _ (l : StageLock) (env : Services) (event : Event) where
  resolve_source-Moves : (p : Phase) → Moves p p (resolve_source l env event)
  unfolding resolve_source
  resolve_source-Moves p =
      Quiet-Moves p (resolve_source l env event) (λ w. ground (arith, l.stage_release w.store))

  pub require-Moves :
      {A : Type 0} (p : Phase) (why : World.Refusal) (found : Lookup A)
      → Moves p p (require {l = l} why found)
  require-Moves p why found =
      Quiet-Moves p (require {l = l} why found) (λ w. ground (arith, l.stage_release w.store))

  balance_of-Moves : (p : Phase) (asset : AssetRow) → Moves p p (balance_of l asset)
  unfolding balance_of
  balance_of-Moves p asset =
      Quiet-Moves p (balance_of l asset) (λ w. ground (arith, l.stage_release w.store))

  find_or_create-Moves :
      (p : Phase) (params : CreateTransactionParams) → Moves p p (find_or_create l env event params)
  unfolding find_or_create create_row
  find_or_create-Moves p params =
      Quiet-Moves p (find_or_create l env event params)
        (λ w. ground (arith, l.stage_release w.store))

  link_ledger-Moves :
      (p : Phase) (id : ℕ) (ledger_id : String) → Moves p p (link_ledger l env event id ledger_id)
  unfolding link_ledger write_row flush_again flush_rows
  link_ledger-Moves p id ledger_id =
      Quiet-Moves p (link_ledger l env event id ledger_id)
        (λ w. ground (arith, l.stage_release w.store))

  complete_row-Moves : (p : Phase) (id : ℕ) → Moves p p (complete_row l env id)
  unfolding complete_row write_row flush_again flush_rows
  complete_row-Moves p id =
      Quiet-Moves p (complete_row l env id) (λ w. ground (arith, l.stage_release w.store))

  check_amount-Moves : (p : Phase) → Moves p p (check_amount l env event)
  unfolding check_amount
  check_amount-Moves p =
      Quiet-Moves p (check_amount l env event) (λ w. ground (arith, l.stage_release w.store))

  pub finish-Moves : (p : Phase) → Moves p p (finish l)
  unfolding finish
  finish-Moves p = Quiet-Moves p (finish l) (λ w. ground (arith, l.stage_release w.store))

  notify-Moves : (p : Phase) → Moves p p (notify l env)
  unfolding notify
  notify-Moves p =
      Quiet-Moves p (notify l env)
        (λ w. elim (Bool-cases (env.notifies w.calls)) [ inl h ↦ rw h refl | inr h ↦ rw h refl ])

  -- the lock released, after a call that was refused
  released-view :
      (w : World l) (c : Call)
      → marks_of (c ∷ w.calls) ≡ marks_of w.calls
      → view (released_world (record w { calls = c ∷ w.calls })) ≡ view w
  released-view w c h = ground (arith, l.stage_release w.store)

  refused-Moved :
      {A : Type 0} (p q : Phase) (why : World.Refusal) (w : World l) (c : Call)
      → marks_of (c ∷ w.calls) ≡ marks_of w.calls
      → Moved {A = A} p q (view w) (refuse why (record w { calls = c ∷ w.calls }))
  refused-Moved p q why w c h = (λ a k. ground arith, (p, stay p (view w) _ (released-view w c h)))

  call_record-Moves : (request : LedgerRequest) → Moves begun entered (call_record l env request)
  unfolding call_record
  call_record-Moves request w = elim (Option-cases (env.record_transaction request w.calls)) [
    | inl h ↦
        let c = World.recorded request none in
        let run : call_record l env request w
            ≡ refuse World.not_recorded (record w { calls = c ∷ w.calls }) =
          ground arith in
        rw run (refused-Moved begun entered World.not_recorded w c refl)
    | inr (id, h) ↦
        let run : call_record l env request w
            ≡ (ok id, record w { calls = World.recorded request (some id) ∷ w.calls }) =
          ground arith in
        rw run (λ a k. next enter here, (entered, next enter here))
  ]

  call_commit-Moves : (id : Option String) → Moves received settled (call_commit l env id)
  unfolding call_commit
  call_commit-Moves id w = elim (Bool-cases (env.commit_inflight id w.calls)) [
    | inl h ↦
        let run : call_commit l env id w
            ≡ (ok tt, record w { calls = World.committed id true ∷ w.calls }) =
          ground arith in
        rw run (λ a k. next commit here, (settled, next commit here))
    | inr h ↦
        let c = World.committed id false in
        let run : call_commit l env id w
            ≡ refuse World.not_committed (record w { calls = c ∷ w.calls }) =
          ground arith in
        rw run (refused-Moved received settled World.not_committed w c refl)
  ]

  cached-view :
      (stage : String) (w : World l)
      → (l.set_state stage w.store).0 ≡ true
      → view (cache_stage l stage w).1
        ≡ record { stage = some stage; marks = caching stage ∷ marks_of w.calls }
  unfolding cache_stage
  cached-view stage w h = ground (arith, l.stage_set stage w.store)

  uncached-view :
      (stage : String) (w : World l)
      → (l.set_state stage w.store).0 ≡ false
      → view (cache_stage l stage w).1
        ≡ record (view w) { marks = caching stage ∷ marks_of w.calls }
  unfolding cache_stage
  uncached-view stage w h = ground (arith, l.stage_refused stage w.store)

  cache-Moves :
      (p q : Phase) (stage : String)
      → ((v : View) → (p, v) ⟶ (q, record { stage = some stage; marks = caching stage ∷ v.marks }))
      → ((v : View) → (p, v) ⟶ (q, record v { marks = caching stage ∷ v.marks }))
      → Moves p q (cache_stage l stage)
  cache-Moves p q stage caches refuses w = elim (Bool-cases (l.set_state stage w.store).0) [
    | inl h ↦
        let way : (p, view w) ⟶* (q, view (cache_stage l stage w).1) =
          rw (cached-view stage w h) (next (caches (view w)) here) in
        (λ a k. way, (q, way))
    | inr h ↦
        let way : (p, view w) ⟶* (q, view (cache_stage l stage w).1) =
          rw (uncached-view stage w h) (next (refuses (view w)) here) in
        (λ a k. way, (q, way))
  ]

  params-Moves : {A : Type 0} (p : Phase) (o : Outcome A) → Moves {l = l} p p (λ w. (o, w))
  params-Moves p o = Quiet-Moves p (λ w. (o, w)) (λ w. refl)

  pure-Moves : {A : Type 0} (p : Phase) (a : A) → Moves p p (pure {l = l} a)
  pure-Moves p a w = (λ b k. here, (p, here))

  known-Moves : (t : Transaction) → Moves begun entered (pure {l = l} t)
  known-Moves t w = (λ b k. next known here, (entered, next known here))

  name_error-Moves :
      {A : Type 0}
      → Moves {l = l} {A = A} begun entered (λ w. (raised World.name_error, released_world w))
  name_error-Moves w =
      let quiet : view (released_world w) ≡ view w = ground (arith, l.stage_release w.store) in
      (λ a k. ground arith, (begun, stay begun (view w) (view (released_world w)) quiet))

  record_inflight-Moves :
      (source : AssetData) (asset : AssetRow) (balance : String) (t : Transaction)
      → Moves begun entered (record_inflight l env event source asset balance t)
  unfolding record_inflight
  record_inflight-Moves source asset balance t = elim (Bool-cases (has_ledger_id l t)) [
    | inl h ↦ rw h (known-Moves t)
    | inr h ↦ elim (Option-cases (env.read_decimal event.amount)) [
      | inl k ↦ rw (h, k) name_error-Moves
      | inr (amount, k) ↦
          rw (h, k)
            (bind-Moves begun entered entered _ _ (call_record-Moves _)
              (λ id. link_ledger-Moves entered t.id id))
    ]
  ]

  pub initialize-Moves : Moves begun received (initialize_deposit_transaction l env event)
  unfolding initialize_deposit_transaction
  initialize-Moves = bind-Moves begun begun received _ _ (resolve_source-Moves begun) (λ source.
      bind-Moves begun begun received _ _ (require-Moves begun World.no_wallet _) (λ wallet.
        bind-Moves begun begun received _ _ (require-Moves begun World.no_asset _) (λ asset.
          bind-Moves begun begun received _ _ (balance_of-Moves begun asset) (λ balance.
            bind-Moves begun begun received _ _
              (params-Moves begun (params_from_event env event wallet asset))
              (λ params.
                bind-Moves begun begun received _ _ (find_or_create-Moves begun params) (λ row.
                  bind-Moves begun entered received _ _
                    (record_inflight-Moves source asset balance row)
                    (λ t.
                      bind-Moves entered received received _ _
                        (cache-Moves entered received "received" (λ v. receive) (λ v. uncached))
                        (λ u. pure-Moves received t))))))))

  pub settle-Moves : (t : Transaction) → Moves received swept (settle l env event t)
  unfolding settle
  settle-Moves t = bind-Moves received received swept _ _ (check_amount-Moves received) (λ u.
      bind-Moves received received swept _ _ (resolve_source-Moves received) (λ source.
        bind-Moves received settled swept _ _ (call_commit-Moves t.ledger_transaction_id) (λ c.
          bind-Moves settled settled swept _ _ (complete_row-Moves settled t.id) (λ d.
            bind-Moves settled swept swept _ _
              (cache-Moves settled swept "swept" (λ v. sweep) (λ v. unswept))
              (λ e.
                bind-Moves swept swept swept _ _ (finish-Moves swept) (λ f. notify-Moves swept))))))
