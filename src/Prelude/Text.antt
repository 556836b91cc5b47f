-- ===== src/Prelude/Text.antt =====
-- Texts as lists of code points, for the case-insensitive comparisons of ASCII texts.
use Prim.Native.Char.{code}
use Prim.Native.Nat.{ℕ, ◌+◌, ◌-◌}
use Prim.Native.String.{String}
use mathlib.Core.Bool.{Bool, true, false, ◌&&◌}
use mathlib.Core.List.{List, [], ◌∷◌, map}
use looprail_backend.Prelude.Tests.{leb, ◌==◌, if◌then◌else◌}

abbrev pub codes : String → List ℕ
codes String.[] = []
codes (String.◌∷◌ c s) = code c ∷ codes s

unfoldable pub upper_code : ℕ → ℕ
upper_code c = if leb b'a' c && leb c b'z' then c - 32 else c

unfoldable pub lower_code : ℕ → ℕ
lower_code c = if leb b'A' c && leb c b'Z' then c + 32 else c

abbrev pub same_codes : List ℕ → List ℕ → Bool
same_codes [] [] = true
same_codes (c ∷ s) (d ∷ t) = c == d && same_codes s t
same_codes _ _ = false

-- `a.upper() == b.upper()`
unfoldable pub same_upper : String → String → Bool
unfolding upper_code
same_upper a b = same_codes (map upper_code (codes a)) (map upper_code (codes b))

-- `a.upper() == b`
unfoldable pub is_upper_of : String → String → Bool
unfolding upper_code
is_upper_of a b = same_codes (map upper_code (codes a)) (codes b)

-- `a.lower() == b.lower()`
unfoldable pub same_lower : String → String → Bool
unfolding lower_code
same_lower a b = same_codes (map lower_code (codes a)) (map lower_code (codes b))
