-- ===== src/Decimal.antt =====
-- Python's `decimal` in its default context: 28 significant digits, ROUND_HALF_EVEN. A value is
-- `coefficient / 10 ^ scale`; trailing zeros, infinities and NaN are not kept apart.
mod Tests
use looprail_backend.Prelude.{
  ℕ, zero, suc, ◌+◌, ◌-◌, ◌*◌, ◌/◌, ◌%◌, ◌^◌, Bool, true, false, ◌&&◌, ◌||◌, Option, none, some,
  ltb, leb, ◌==◌, if◌then◌else◌, ℤ, pos, negsuc, pos_part, neg_part, ◌*ℤ◌, ◌+ℤ◌, sub_ℕ, ltb_ℤ,
}

pub record Decimal : Type 0 where
  pub coefficient : ℤ
  pub scale : ℕ

abbrev pub magnitude : ℤ → ℕ
magnitude z = pos_part z + neg_part z

abbrev pub signed : Bool → ℕ → ℤ
signed true n = sub_ℕ 0 n
signed false n = pos n

abbrev pub is_negative : ℤ → Bool
is_negative (pos _) = false
is_negative (negsuc _) = true

-- `n` and a multiple of ten, rounded half to even on division
unfoldable pub half_even : ℕ → ℕ → ℕ
half_even n unit =
    let q = n / unit in
    let r = 2 * (n % unit) in if ltb unit r || (r == unit && q % 2 == 1) then q + 1 else q

-- the power of ten to which a coefficient is rounded: 28 digits stay
digits_unit : ℕ → ℕ → ℕ → ℕ
digits_unit zero n unit = unit
digits_unit (suc fuel) n unit = elim (ltb (n / unit) (10 ^ 28)) [
  | true ↦ unit
  | false ↦ digits_unit fuel n (10 * unit)
]

unfoldable pub fix : ℤ → ℕ → Decimal
unfolding half_even digits_unit
fix c scale =
    let unit = digits_unit (magnitude c) (magnitude c) 1 in
    record {
      coefficient = signed (is_negative c) (half_even (magnitude c) unit * unit);
      scale = scale;
    }

unfoldable pub add : Decimal → Decimal → Decimal
unfolding fix ◌+ℤ◌ ◌*ℤ◌
add a b =
    fix (a.coefficient *ℤ pos (10 ^ b.scale) +ℤ b.coefficient *ℤ pos (10 ^ a.scale))
      (a.scale + b.scale)

unfoldable pub mul : Decimal → Decimal → Decimal
unfolding fix ◌*ℤ◌
mul a b = fix (a.coefficient *ℤ b.coefficient) (a.scale + b.scale)

unfoldable pub of_ℕ : ℕ → Decimal
of_ℕ n = record { coefficient = pos n; scale = 0 }

abbrev pub is_zero : Decimal → Bool
is_zero d = magnitude d.coefficient == 0

-- the decimal digits of `n`, for fuel of at least `n`
digit_count : ℕ → ℕ → ℕ
digit_count zero n = 1
digit_count (suc fuel) n = elim (ltb n 10) [ true ↦ 1 | false ↦ suc (digit_count fuel (n / 10)) ]

-- `a / b`: the quotient to more than 28 digits with a sticky digit, rounded once. `none` stands
-- for DivisionByZero and InvalidOperation.
unfoldable pub div : Decimal → Decimal → Option Decimal
unfolding fix digit_count
div a b =
    let d = magnitude b.coefficient in
    let shift = 30 + digit_count d d in
    let n = magnitude a.coefficient * 10 ^ (b.scale + shift) in
    let sticky = if n % d == 0 then 0 else 1 in
    let negative =
      if is_negative a.coefficient
      then (if is_negative b.coefficient then false else true)
      else is_negative b.coefficient in
    let quotient = fix (signed negative (n / d * 10 + sticky)) (a.scale + shift + 1) in
    if is_zero b then none else some quotient

-- `a < b`
unfoldable pub lt : Decimal → Decimal → Bool
unfolding ◌*ℤ◌
lt a b = ltb_ℤ (a.coefficient *ℤ pos (10 ^ b.scale)) (b.coefficient *ℤ pos (10 ^ a.scale))

-- `d.quantize(Decimal(10) ** -places)`
unfoldable pub quantize : ℕ → Decimal → Decimal
unfolding half_even
quantize places d = record {
  coefficient =
      signed (is_negative d.coefficient)
        (half_even (magnitude d.coefficient * 10 ^ places) (10 ^ d.scale));
  scale = places;
}

-- `int(d)`
unfoldable pub trunc : Decimal → ℤ
trunc d = signed (is_negative d.coefficient) (magnitude d.coefficient / 10 ^ d.scale)
