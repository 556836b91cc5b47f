-- ===== src/Action.antt =====
-- Methods that change a state, and return a value or an error.
use looprail_backend.Prelude.{◌≡◌, ◌∙◌, ap, ◌⊎◌, inl, inr, refl, arith, Option, none, some}

pub data Result (E A : Type 0) : Type 0 where
  ok : A → Result E A
  err : E → Result E A

pub Result-cases :
    {E A : Type 0} (o : Result E A) → ((a : A) × (o ≡ ok a)) ⊎ ((e : E) × (o ≡ err e))
Result-cases (ok a) = inl (a, refl)
Result-cases (err e) = inr (e, refl)

abbrev pub Action : Type 0 → Type 0 → Type 0 → Type 0
Action S E A = S → Result E A × S

module _ {S E A : Type 0} where
  abbrev pub pure : A → Action S E A
  pure a s = (ok a, s)

  abbrev pub fail : E → Action S E A
  fail e s = (err e, s)

  -- a value that must be there
  abbrev pub or_fail : E → Option A → Action S E A
  or_fail e none = fail e
  or_fail e (some a) = pure a

-- what follows an action's end
abbrev pub proceed : {S E A B : Type 0} → (A → Action S E B) → Result E A × S → Result E B × S
proceed f (o, s) = elim o [ ok a ↦ f a s | err e ↦ (err e, s) ]

infixl 5 ◌>>=◌ ◌>>◌
unfoldable pub ◌>>=◌ : {S E A B : Type 0} → Action S E A → (A → Action S E B) → Action S E B
◌>>=◌ m f s = proceed f (m s)

abbrev pub ◌>>◌ : {S E A B : Type 0} → Action S E A → Action S E B → Action S E B
m >> k = m >>= λ _. k

proceed_returns :
    {S E A B : Type 0} (f : A → Action S E B) (r : Result E A × S) (b : B)
    → (proceed f r).0 ≡ ok b
    → (a : A) × ((r.0 ≡ ok a) × (proceed f r ≡ f a r.1))
proceed_returns f (ok a, s) b h = (a, (refl, refl))
proceed_returns f (err e, s) b h = ground arith

-- runs of two actions, one after the other
module _ {S E A B : Type 0} where
  pub bind_then :
      (m : Action S E A) (f : A → Action S E B) (s t : S) (a : A) (r : Result E B × S)
      → m s ≡ (ok a, t)
      → f a t ≡ r
      → (m >>= f) s ≡ r
  unfolding ◌>>=◌
  bind_then m f s t a r h k = ap (λ x. proceed f x) h ∙ k

  pub bind-err :
      (m : Action S E A) (f : A → Action S E B) (s t : S) (e : E)
      → m s ≡ (err e, t)
      → (m >>= f) s ≡ (err e, t)
  unfolding ◌>>=◌
  bind-err m f s t e h = ap (λ x. proceed f x) h

  -- where the whole returns, so does the first
  pub bind_returns :
      (m : Action S E A) (f : A → Action S E B) (s : S) (b : B)
      → ((m >>= f) s).0 ≡ ok b
      → (a : A) × (((m s).0 ≡ ok a) × ((m >>= f) s ≡ f a (m s).1))
  unfolding ◌>>=◌
  bind_returns m f s b h = proceed_returns f (m s) b h
