-- ===== src/Deposits/Deliveries.antt =====
-- What the events of a deposit leave behind where all services answer: one of them, both, and one twice.
use looprail_backend.Prelude.{
  ◌≡◌, ◌∙◌, ap, refl, Bool, true, false, Option, none, some, String, List, [], ◌∷◌, ◌++◌, arith,
  if◌then◌else◌, Bool-cases, inl, inr,
}
use looprail_backend.Database.{Database, commit}
use looprail_backend.Transactions.{Transaction, TransactionStatus, Detail, Books, find_row}
use looprail_backend.Deposits.StageLock.{StageLock}
use looprail_backend.Deposits.World
use looprail_backend.Deposits.World.{
  Event, Lookup, missing, one, Call, acquired, released, Services, Outcome, ok, refused, raised,
  World, Action, ◌>>=◌, ◌>>◌, bind_then, find_one, same_text, hash_of, put_stage, matching,
  is_completed, LedgerRequest, require,
}
use looprail_backend.Deposits.Tasks.{
  finish, is_received, settle, process_deposit_swept_success, run_task, end_session, notify,
}
use looprail_backend.Deposits.Released.{acquire_lock-taken}
use looprail_backend.Deposits.Answers.{Answers}
use looprail_backend.Deposits.Runs.{
  prepared, new_row, new_details, received_row, received_world, recording, request_for,
  initialize-run, with_row,
}
use looprail_backend.Deposits.Settling.{
  taken, settle-run, settled_world, completed, fetch-initializes,
}

-- no transaction has the event's hash
abbrev pub Unknown : Event → List Transaction → Type 0
Unknown event rows = find_one (λ t. same_text (hash_of t) event.hash) rows ≡ missing

-- The calls of a task that recorded and committed one entry.
abbrev pub settling : Option String → LedgerRequest → List Call → List Call
settling id request calls =
    released
    ∷ World.staged "swept"
    ∷ World.committed id true
    ∷ World.staged "received"
    ∷ World.recorded request id
    ∷ acquired
    ∷ calls

pub pending_incomplete :
    (t : Transaction) → t.status ≡ TransactionStatus.pending → is_completed t ≡ false
pending_incomplete t h = ground arith

module _ (l : StageLock) (env : Services) (event : Event) (a : Answers env event) where
  -- the new row's id is that of no other
  pub fresh :
      (w : World l) → find_row (new_row l env event a w).id w.database.current.transactions ≡ none
  fresh w =
      let books = w.database.current in
      ap (λ id. find_row id books.transactions) (prepared l env event a (env.new_id books)).0
      ∙ a.id_fresh books

  abbrev pub swept_world : World l → World l
  swept_world w =
      let t = received_row l env event a w in
      settled_world l env event a w t (put_stage t.id "received" (new_details l env event a w))
        (l.set_state "received" w.store).1
        (World.staged "received" ∷ recording l env event a w (new_row l env event a w))

  settle_new-run :
      (w : World l)
      → let t = received_row l env event a w in
        (if is_completed t then finish l else settle l env event t) (received_world l env event a w)
        ≡ notify l env (swept_world w)
  settle_new-run w =
      let pending : is_completed (received_row l env event a w) ≡ false =
        pending_incomplete (received_row l env event a w)
          (prepared l env event a (env.new_id w.database.current)).2 in
      rw pending (settle-run l env event a w (received_row l env event a w) _ _ _ (fresh w))

  pub swept-run :
      (w : World l)
      → (l.acquire w.store).0 ≡ true
      → is_received l (l.get_state (taken l env event a w).store) ≡ false
      → Unknown event w.database.current.transactions
      → process_deposit_swept_success l env event w
        ≡ notify l env (swept_world (taken l env event a w))
  unfolding process_deposit_swept_success
  swept-run w free unset unknown =
      let w1 = taken l env event a w in
      bind_then _ _ _ _ _ _ (acquire_lock-taken w free) (
        bind_then _ _ _ _ _ _
          (fetch-initializes l env event a w1 unset ∙ initialize-run l env event a w1 unknown)
          (settle_new-run w1))

  -- the rows with the new one, or those that a rollback goes back to
  abbrev pub rows_left : Bool → World l → Transaction → List Transaction
  rows_left true w t = w.database.current.transactions ++ (t ∷ [])
  rows_left false w t = w.database.saved.transactions

  -- What a run of the task leaves, where the new row is `t`. The row stays if what follows the last release goes
  -- through, and is rolled back if that raises.
  abbrev pub Settled : World l → World l → Transaction → LedgerRequest → Type 0
  Settled w w' t request =
      (w'.database.saved.transactions ≡ rows_left (env.notifies w'.calls) w t)
      × (w'.database.current.transactions ≡ rows_left (env.notifies w'.calls) w t)
      × (t.status ≡ TransactionStatus.completed)
      × (t.external_reference ≡ some event.reference)
      × (hash_of t ≡ none)
      × (w'.calls ≡ settling t.ledger_transaction_id request w.calls)

  pub run_task-ok :
      (m : Action l (Unit {0})) (w w' : World l)
      → m w ≡ (ok tt, w')
      → run_task l m w ≡ record w' {
        database = record { saved = w'.database.current; current = w'.database.current };
      }
  unfolding run_task commit
  run_task-ok m w w' h = ap (λ r. end_session l r) h

  -- the tables at the end of the session
  abbrev pub kept : Bool → Database Books → Books
  kept true db = db.current
  kept false db = db.saved

  abbrev pub closed : World l → World l
  closed v =
      let books = kept (env.notifies v.calls) v.database in
      record v { database = record { saved = books; current = books } }

  pub notify-true : (v : World l) → env.notifies v.calls ≡ true → notify l env v ≡ (ok tt, v)
  unfolding notify
  notify-true v h = rw h refl

  notify-false :
      (v : World l) → env.notifies v.calls ≡ false → notify l env v ≡ (raised World.not_notified, v)
  unfolding notify
  notify-false v h = rw h refl

  pub run_task-notify :
      (m : Action l (Unit {0})) (w v : World l) → m w ≡ notify l env v → run_task l m w ≡ closed v
  unfolding run_task commit
  run_task-notify m w v h = elim (Bool-cases (env.notifies v.calls)) [
    | inl k ↦ rw k (ap (λ r. end_session l r) (h ∙ notify-true v k))
    | inr k ↦ rw k (ap (λ r. end_session l r) (h ∙ notify-false v k))
  ]

  pub kept_rows :
      (notified : Bool) (w : World l) (t : Transaction) (details : List Detail)
      → (kept notified (with_row l env event a w t details).database).transactions
        ≡ rows_left notified w t
  kept_rows true w t details = refl
  kept_rows false w t details = refl

  -- Where all services answer, the lock is free, the cached stage is not that of a received deposit, and no
  -- transaction has the event's hash, one delivery of the swept event records and commits one entry of the ledger.
  -- Where what follows the last release goes through, it adds one completed transaction with the event's reference,
  -- the entry's, which is saved. Where that raises, the transaction is rolled back, and the entry stays committed.
  pub swept-settles :
      (w : World l)
      → (l.acquire w.store).0 ≡ true
      → is_received l (l.get_state (l.acquire w.store).1) ≡ false
      → Unknown event w.database.current.transactions
      → (t : Transaction) × (request : LedgerRequest) × Settled w
          (run_task l (process_deposit_swept_success l env event) w)
          t
          request
  swept-settles w free unset unknown =
      let w1 = taken l env event a w in
      let t = received_row l env event a w1 in
      let done = completed l env event a t in
      let v = swept_world w1 in
      let p = prepared l env event a (env.new_id w.database.current) in
      let rows = kept_rows (env.notifies v.calls) w done v.database.current.details in
      rw (run_task-notify _ w v (swept-run w free unset unknown)) (
        done,
        request_for l env event a (new_row l env event a w1),
        (rows, rows, refl, refl, p.3, refl),
      )

-- The lock is free whenever it is asked for, another client leaves the stage alone, and the cache takes
-- every stage.
pub record Undisturbed (l : StageLock) : Type 0 where
  pub free : (s : l.Store) → (l.acquire s).0 ≡ true
  pub kept : (s : l.Store) → l.get_state (l.acquire s).1 ≡ l.get_state s
  pub cached : (stage : String) (s : l.Store) → (l.set_state stage s).0 ≡ true

matching-append_ne :
    (p : Transaction → Bool) (rows : List Transaction) (t : Transaction)
    → p t ≡ false
    → matching p (rows ++ (t ∷ [])) ≡ matching p rows
matching-append_ne p [] t k = ground arith
matching-append_ne p (r ∷ rows) t k = ground (arith, matching-append_ne p rows t k)

matching-append :
    (p : Transaction → Bool) (rows : List Transaction) (t : Transaction)
    → p t ≡ true
    → matching p (rows ++ (t ∷ [])) ≡ matching p rows ++ (t ∷ [])
matching-append p [] t k = ground arith
matching-append p (r ∷ rows) t k = ground (arith, matching-append p rows t k)

find_one-append_ne :
    (p : Transaction → Bool) (rows : List Transaction) (t : Transaction)
    → find_one p rows ≡ missing
    → p t ≡ false
    → find_one p (rows ++ (t ∷ [])) ≡ missing
unfolding find_one
find_one-append_ne p rows t h k = ground (arith, matching-append_ne p rows t k)

pub find_one-append :
    (p : Transaction → Bool) (rows : List Transaction) (t : Transaction)
    → find_one p rows ≡ missing
    → p t ≡ true
    → find_one p (rows ++ (t ∷ [])) ≡ one t
unfolding find_one
find_one-append p rows t h k = ground (arith, matching-append p rows t k)

module _ (l : StageLock) (env : Services) (event : Event) (a : Answers env event)
    (calm : Undisturbed l) where
  -- the stage that a task reads after another one has cached `stage` and released the lock
  pub stage_next :
      (stage : String) (s : l.Store)
      → l.get_state (l.acquire (l.release (l.set_state stage s).1).1).1 ≡ some stage
  stage_next stage s =
      calm.kept (l.release (l.set_state stage s).1).1
      ∙ l.stage_release (l.set_state stage s).1
      ∙ l.stage_set stage s (calm.cached stage s)

  -- no transaction has the event's hash after a delivery either
  Unknown-rows_left :
      (notified : Bool) (w : World l) (t : Transaction)
      → same_text (hash_of t) event.hash ≡ false
      → Unknown event w.database.current.transactions
      → Unknown event w.database.saved.transactions
      → Unknown event (rows_left l env event a notified w t)
  Unknown-rows_left true w t differs unknown before =
      find_one-append_ne _ w.database.current.transactions t unknown differs
  Unknown-rows_left false w t differs unknown before = before

  -- Where all services answer, nothing disturbs the lock, the cached stage is not that of a received deposit, and the event
  -- has a hash that no transaction has, seen or saved, a swept event that is delivered again records and commits a second
  -- entry of the ledger, whether the first delivery was completed or rolled back. Each delivery adds a completed
  -- transaction with the event's reference if what follows its last release goes through.
  pub swept_again-settles :
      (hash : String) (w : World l)
      → event.hash ≡ some hash
      → is_received l (l.get_state w.store) ≡ false
      → Unknown event w.database.current.transactions
      → Unknown event w.database.saved.transactions
      → let w1 = run_task l (process_deposit_swept_success l env event) w in
        let w2 = run_task l (process_deposit_swept_success l env event) w1 in
        (t : Transaction) × (u : Transaction) × (first : LedgerRequest) × (second : LedgerRequest)
        × (Settled l env event a w w1 t first × Settled l env event a w1 w2 u second)
  swept_again-settles hash w hashed unset unknown before =
      let w1 = taken l env event a w in
      let t = completed l env event a (received_row l env event a w1) in
      let hidden : hash_of t ≡ none = (prepared l env event a (env.new_id w.database.current)).3 in
      let differs : same_text (hash_of t) event.hash ≡ false = ground arith in
      let v : World l = swept_world l env event a w1 in
      let after : World l = closed l env event a v in
      let rows = kept_rows l env event a (env.notifies v.calls) w t v.database.current.details in
      let again =
        swept-settles l env event a after (calm.free after.store)
          (ap (λ st. is_received l st) (stage_next "swept" (l.set_state "received" w1.store).1))
          (rw rows (Unknown-rows_left (env.notifies v.calls) w t differs unknown before)) in
      let received_before = ap (λ st. is_received l st) (calm.kept w.store) ∙ unset in
      rw
        (run_task-notify l env event a (process_deposit_swept_success l env event) w v
          (swept-run l env event a w (calm.free w.store) received_before unknown))
        (
          t,
          again.0,
          request_for l env event a (new_row l env event a w1),
          again.1,
          ((rows, rows, refl, refl, hidden, refl), again.2),
        )
