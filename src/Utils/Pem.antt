-- ===== src/Utils/Pem.antt =====
-- utils.leaf_pem: the first match of `-----BEGIN CERTIFICATE-----.*?-----END CERTIFICATE-----`.
pub mod Bare
use Prim.Native.Char.{code}
use cert_publisher.Prelude.{
  ℕ, String, Option, none, some, List, [], ◌∷◌, ◌++◌, nat_eq, if◌then◌else◌,
}
use cert_publisher.Resources.{Bytes}
use cert_publisher.Effects.{value_error, Result, ok, raised}

-- The code points of a text: its bytes, if it is ASCII.
abbrev pub codes : String → List ℕ
codes String.[] = []
codes (String.◌∷◌ c s) = code c ∷ codes s

abbrev pub begin_mark : Bytes
begin_mark = codes "-----BEGIN CERTIFICATE-----"

abbrev pub end_mark : Bytes
end_mark = codes "-----END CERTIFICATE-----"

-- What follows the mark, if the bytes begin with it.
pub after_mark : Bytes → Bytes → Option Bytes
after_mark [] bs = some bs
after_mark (m ∷ ms) [] = none
after_mark (m ∷ ms) (b ∷ bs) = if nat_eq m b then after_mark ms bs else none

or_else : Option Bytes → Option Bytes → Option Bytes
or_else none o = o
or_else (some b) o = some b

prepend : ℕ → Option Bytes → Option Bytes
prepend b none = none
prepend b (some bs) = some (b ∷ bs)

at_end : Option Bytes → Option Bytes
at_end none = none
at_end (some rest) = some end_mark

-- The shortest stretch that ends with the end mark.
to_end : Bytes → Option Bytes
unfolding after_mark or_else prepend at_end
to_end [] = none
to_end (b ∷ bs) = or_else (at_end (after_mark end_mark (b ∷ bs))) (prepend b (to_end bs))

block : Option Bytes → Option Bytes
unfolding to_end
block none = none
block (some rest) = elim (to_end rest) [ none ↦ none | some body ↦ some (begin_mark ++ body) ]

-- The search at every position, the first match first.
pub search_block : Bytes → Option Bytes
unfolding block
search_block [] = none
search_block (b ∷ bs) = or_else (block (after_mark begin_mark (b ∷ bs))) (search_block bs)

or_raise : Option Bytes → Result Bytes
or_raise none = raised (record { kind = value_error; text = "no certificate found in PEM data" })
or_raise (some b) = ok b

pub leaf_pem : Bytes → Result Bytes
unfolding search_block or_raise
leaf_pem pem = or_raise (search_block pem)
