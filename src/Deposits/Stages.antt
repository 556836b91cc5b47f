-- ===== src/Deposits/Stages.antt =====
-- The stages of a deposit as an abstract machine, and the tasks as its steps.
use looprail_backend.Prelude.{◌≡◌, refl, true, Option, some, String, List, [], ◌∷◌, arith}
use looprail_backend.Deposits.StageLock.{StageLock}
use looprail_backend.Deposits.World
use looprail_backend.Deposits.World.{
  Event, WalletRow, AssetRow, Lookup, missing, several, one, Call, Services, LedgerRequest, Outcome,
  ok, refused, raised, World, Action, pure, refuse, require, ◌>>=◌, bind-ok, proceed, is_completed,
  find_one, same_text, hash_of, released_world,
}

-- how far a task has come with the lock
pub data Phase : Type 0 where
  begun entered received settled swept : Phase

-- an entry that the ledger took, an attempt to cache a stage, and a commit that the ledger took
pub data Mark : Type 0 where
  entry settlement : Mark
  caching : String → Mark

-- what an observer sees: the cached stage, and the marks in their order, the latest first
pub record View : Type 0 where
  pub stage : Option String
  pub marks : List Mark

infix 4 ◌⟶◌ ◌⟶*◌
-- The steps. An entry comes before the stage is cached, a commit after it, and the last stage after that.
pub data ◌⟶◌ : Phase × View → Phase × View → Type 0 where
  -- a new entry, or one that the transaction has already
  enter : {v : View} → (begun, v) ⟶ (entered, record v { marks = entry ∷ v.marks })
  known : {v : View} → (begun, v) ⟶ (entered, v)
  -- the stage is cached, or the cache refuses
  receive :
      {v : View}
      → (entered, v)
        ⟶ (received, record { stage = some "received"; marks = caching "received" ∷ v.marks })
  uncached :
      {v : View} → (entered, v) ⟶ (received, record v { marks = caching "received" ∷ v.marks })
  -- another task has cached it
  resume : {v : View} → v.stage ≡ some "received" → (begun, v) ⟶ (received, v)
  commit : {v : View} → (received, v) ⟶ (settled, record v { marks = settlement ∷ v.marks })
  sweep :
      {v : View}
      → (settled, v) ⟶ (swept, record { stage = some "swept"; marks = caching "swept" ∷ v.marks })
  unswept : {v : View} → (settled, v) ⟶ (swept, record v { marks = caching "swept" ∷ v.marks })

pub data ◌⟶*◌ : Phase × View → Phase × View → Type 0 where
  here : {s : Phase × View} → s ⟶* s
  next : {s t u : Phase × View} → s ⟶ t → t ⟶* u → s ⟶* u

pub append : {s t u : Phase × View} → s ⟶* t → t ⟶* u → s ⟶* u
append here k = k
append (next e h) k = next e (append h k)

abbrev pub marks_of : List Call → List Mark
marks_of [] = []
marks_of (c ∷ cs) =
    let rest = marks_of cs in
    elim c [
      | World.recorded r (some id) ↦ entry ∷ rest
      | World.staged stage ↦ caching stage ∷ rest
      | World.committed id true ↦ settlement ∷ rest
      | _ ↦ rest
    ]

abbrev pub view : {l : StageLock} → World l → View
view {l = l} w = record { stage = l.get_state w.store; marks = marks_of w.calls }

-- from phase `p` to some phase, and to `q` where the action returns
abbrev pub Moved :
    {l : StageLock} {A : Type 0} → Phase → Phase → View → Outcome A × World l → Type 0
Moved {A = A} p q v (o, w) =
    ((a : A) → o ≡ ok a → (p, v) ⟶* (q, view w)) × ((r : Phase) × ((p, v) ⟶* (r, view w)))

abbrev pub Moves : {l : StageLock} {A : Type 0} → Phase → Phase → Action l A → Type 0
Moves {l = l} p q m = (w : World l) → Moved p q (view w) (m w)

pub stay : (p : Phase) (v w : View) → w ≡ v → (p, v) ⟶* (p, w)
stay p v w h = rw h here

-- some phase is reached
abbrev pub Ends : {l : StageLock} → Phase → View → World l → Type 0
Ends p v w = (r : Phase) × ((p, v) ⟶* (r, view w))

module _ {l : StageLock} where
  pub proceed-Moved :
      {A B : Type 0} (p q t : Phase) (v : View) (f : A → Action l B) (r : Outcome A × World l)
      → Moved p q v r
      → ((a : A) → Moves q t (f a))
      → Moved p t v (proceed f r)
  proceed-Moved p q t v f (ok a, w) h rest =
      let first = h.0 a refl in
      (λ b k. append first ((rest a w).0 b k), ((rest a w).1.0, append first (rest a w).1.1))
  proceed-Moved p q t v f (refused e, w) h rest = (λ b k. ground arith, h.1)
  proceed-Moved p q t v f (raised x, w) h rest = (λ b k. ground arith, h.1)

  pub bind-Moves :
      {A B : Type 0} (p q t : Phase) (m : Action l A) (f : A → Action l B)
      → Moves p q m
      → ((a : A) → Moves q t (f a))
      → Moves p t (m >>= f)
  unfolding ◌>>=◌
  bind-Moves p q t m f first rest w = proceed-Moved p q t (view w) f (m w) (first w) rest

  pub proceed-Ends :
      {A B : Type 0} (p q : Phase) (v : View) (f : A → Action l B) (r : Outcome A × World l)
      → Moved p q v r
      → ((a : A) (w : World l) → Ends q (view w) (f a w).1)
      → Ends p v (proceed f r).1
  proceed-Ends p q v f (ok a, w) h rest =
      let last = rest a w in (last.0, append (h.0 a refl) last.1)
  proceed-Ends p q v f (refused e, w) h rest = h.1
  proceed-Ends p q v f (raised x, w) h rest = h.1

  pub bind-Ends :
      {A B : Type 0} (p q : Phase) (m : Action l A) (f : A → Action l B)
      → Moves p q m
      → ((a : A) (w : World l) → Ends q (view w) (f a w).1)
      → (w : World l) → Ends p (view w) ((m >>= f) w).1
  unfolding ◌>>=◌
  bind-Ends p q m f first rest w = proceed-Ends p q (view w) f (m w) (first w) rest

  -- the action changes nothing that is seen
  abbrev pub Quiet : {A : Type 0} → Action l A → Type 0
  Quiet m = (w : World l) → view (m w).1 ≡ view w

  pub Quiet-Moves : {A : Type 0} (p : Phase) (m : Action l A) → Quiet m → Moves p p m
  Quiet-Moves p m h w =
      (λ a k. stay p (view w) (view (m w).1) (h w), (p, stay p (view w) (view (m w).1) (h w)))
