-- ===== src/Prelude/Text.antt =====
-- Texts: slices and concatenation. A text is a list of characters by its own `[]` and `∷`.
use Prim.Native.Nat.{ℕ, zero, suc, ◌≤◌}
use Prim.Native.String.{String}
use Prim.Native.String
use mathlib.Core.List.{List, [], ◌∷◌}
use native.Mathlib.Omega.{arith}

-- `s[:n]`
unfoldable pub truncate : ℕ → String → String
truncate zero s = String.[]
truncate (suc n) String.[] = String.[]
truncate (suc n) (String.◌∷◌ c s) = String.◌∷◌ c (truncate n s)

-- The number of characters.
abbrev pub characters : String → ℕ
characters String.[] = 0
characters (String.◌∷◌ c s) = suc (characters s)

-- An f-string: its parts, one after the other.
unfoldable pub concat : List String → String
concat [] = String.[]
concat (s ∷ ss) = String.◌++◌ s (concat ss)

pub truncate-le : (n : ℕ) (s : String) → characters (truncate n s) ≤ n
unfolding truncate
truncate-le zero s = omega arith
truncate-le (suc n) String.[] = omega arith
truncate-le (suc n) (String.◌∷◌ c s) = omega (arith, truncate-le n s)
