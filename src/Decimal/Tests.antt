-- ===== src/Decimal/Tests.antt =====
-- The decimal operations at a few values.
use looprail_backend.Prelude.{◌≡◌, refl, some, none, ℤ, pos, negsuc, true, Option}
use looprail_backend.Decimal.{Decimal, add, mul, div, lt, quantize, trunc, of_ℕ}
use looprail_backend.Prelude.Text.{same_upper}

abbrev rate : Decimal
rate = record { coefficient = pos 150025; scale = 2 }

-- 1000 / 1500.25 = 0.66655557407… to the cent is 0.67
cents : Option ℤ
cents = elim (div (of_ℕ 1000) rate) [ none ↦ none | some q ↦ some (quantize 2 q).coefficient ]

cents_lem : cents ≡ some (pos 67)
unfolding cents div of_ℕ quantize
cents_lem = refl

-- (5000 + 150.03) / 1500.25 * 100 is 343.28…
minor_units : Option ℤ
minor_units = elim (div (of_ℕ 1) rate) [
  | none ↦ none
  | some e ↦ some (
      trunc
        (mul (mul (add (of_ℕ 5000) (record { coefficient = pos 15003; scale = 2 })) e) (of_ℕ 100)))
]

minor_units_lem : minor_units ≡ some (pos 343)
unfolding minor_units div of_ℕ mul add trunc
minor_units_lem = refl

half_even_cents :
    (quantize 2 (record { coefficient = negsuc 124; scale = 3 })).coefficient ≡ negsuc 11
unfolding quantize
half_even_cents = refl

below : lt (record { coefficient = negsuc 0; scale = 1 }) (of_ℕ 0) ≡ true
unfolding lt of_ℕ
below = refl

same_symbol : same_upper "usdc" "USDC" ≡ true
unfolding same_upper
same_symbol = refl
