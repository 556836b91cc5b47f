-- ===== src/Deposits/Steps.antt =====
-- The tasks of a deposit follow the steps of the abstract machine.
use looprail_backend.Prelude.{
  ◌≡◌, true, Option, none, some, String, ◌∷◌, arith, Bool-cases, inl, inr, if◌then◌else◌,
  str_eq_iff,
}
use looprail_backend.Transactions.{Transaction}
use looprail_backend.Deposits.StageLock.{StageLock}
use looprail_backend.Deposits.Tasks.{
  finish, acquire_lock, skip_or_initialize, process_deposit_success, fetch_or_initialize,
  is_received, has_reference, settle, process_deposit_swept_success,
}
use looprail_backend.Deposits.Released.{acquire_lock-taken}
use looprail_backend.Deposits.World
use looprail_backend.Deposits.World.{
  Event, WalletRow, AssetRow, Lookup, missing, several, one, Call, Services, LedgerRequest, Outcome,
  ok, refused, raised, World, Action, pure, refuse, require, ◌>>=◌, bind-ok, proceed, is_completed,
  find_one, same_text, hash_of, released_world,
}
use looprail_backend.Deposits.Stages.{
  begun, received, View, resume, here, next, view, Moved, Moves, Ends, bind-Ends,
}
use looprail_backend.Deposits.Moves.{require-Moves, finish-Moves, initialize-Moves, settle-Moves}

module _ (l : StageLock) (env : Services) (event : Event) where
  is_received-stage : (stage : Option String) → is_received l stage ≡ true → stage ≡ some "received"
  is_received-stage none h = ground arith
  is_received-stage (some st) h = ground (arith, str_eq_iff st "received")

  resume-Moves :
      (o : Lookup Transaction) (w : World l)
      → is_received l (l.get_state w.store) ≡ true
      → Moved begun received (view w) (require World.no_transaction o w)
  resume-Moves missing w h = (
    λ a k. ground arith,
    (require-Moves l env event {A = Transaction} begun World.no_transaction missing w).1,
  )
  resume-Moves several w h = (λ a k. ground arith, (begun, here))
  resume-Moves (one t) w h =
      let way = next (resume (is_received-stage (l.get_state w.store) h)) here in
      (λ a k. way, (received, way))

  fetch-Moves : Moves begun received (fetch_or_initialize l env event)
  unfolding fetch_or_initialize
  fetch-Moves w = elim (Bool-cases (is_received l (l.get_state w.store))) [
    | inl h ↦ rw h (
        resume-Moves (find_one (has_reference l event.reference) w.database.current.transactions) w
          h)
    | inr h ↦ rw h (initialize-Moves l env event w)
  ]

  skip_or_initialize-Ends :
      (o : Lookup Transaction) (w : World l)
      → Ends begun (view w) (skip_or_initialize l env event o w).1
  unfolding skip_or_initialize
  skip_or_initialize-Ends several w = (begun, here)
  skip_or_initialize-Ends (one t) w = elim (Bool-cases (is_completed t)) [
    | inl h ↦ rw h (finish-Moves l env event begun w).1
    | inr h ↦ rw h (begun, here)
  ]
  skip_or_initialize-Ends missing w =
      bind-Ends begun received _ _ (initialize-Moves l env event)
        (λ t v. (finish-Moves l env event received v).1) w

  finish_or_settle-Ends :
      (t : Transaction) (w : World l)
      → Ends received (view w) ((if is_completed t then finish l else settle l env event t) w).1
  finish_or_settle-Ends t w = elim (Bool-cases (is_completed t)) [
    | inl h ↦ rw h (finish-Moves l env event received w).1
    | inr h ↦ rw h (settle-Moves l env event t w).1
  ]

  -- what is seen once the lock was taken
  abbrev pub taken_view : World l → View
  taken_view w = record (view w) { stage = l.get_state (l.acquire w.store).1 }

  -- Either task, from the moment at which it has taken the lock, and whatever its outcome, follows the steps of the
  -- machine, and its marks are left in their order: at most one entry of the ledger, then the attempt to cache the
  -- first stage, then at most one commit, which needs that attempt or a cached first stage before it, and then the
  -- attempt to cache the last stage.
  pub task-follows :
      (w : World l)
      → (l.acquire w.store).0 ≡ true
      → Ends begun (taken_view w) (process_deposit_success l env event w).1
        × Ends begun (taken_view w) (process_deposit_swept_success l env event w).1
  unfolding process_deposit_success process_deposit_swept_success
  task-follows w free =
      let w1 : World l = record w {
        store = (l.acquire w.store).1;
        calls = World.acquired ∷ w.calls;
      } in
      (
        rw (bind-ok (acquire_lock l) _ w w1 tt (acquire_lock-taken w free))
            (skip_or_initialize-Ends _ w1),
        rw (bind-ok (acquire_lock l) _ w w1 tt (acquire_lock-taken w free))
            (bind-Ends begun received _ _ fetch-Moves finish_or_settle-Ends w1),
      )
