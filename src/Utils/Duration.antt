-- ===== src/Utils/Duration.antt =====
-- utils.parse_go_duration. The matches of `(\d+(?:\.\d+)?)([hms])` are to cover the whole text, so
-- the text is read once, from left to right.
mod Examples
use cert_publisher.Prelude.{
  ℕ, suc, ◌+◌, ◌-◌, ◌*◌, ◌/◌, ◌^◌, String, Bool, ◌&&◌, ◌||◌, Option, none, some, List, [], ◌∷◌, ◌≡◌,
  refl, leb, ltb, nat_eq, if◌then◌else◌,
}
use cert_publisher.Effects.{value_error, other_error, Result, ok, raised}
use cert_publisher.Utils.Pem.{codes}

is_digit : ℕ → Bool
is_digit c = leb b'0' c && leb c b'9'

is_space : ℕ → Bool
is_space c = nat_eq c 32 || (leb 9 c && leb c 13) || (leb 28 c && leb c 31)

drop_spaces : List ℕ → List ℕ
unfolding is_space
drop_spaces [] = []
drop_spaces (c ∷ cs) = let rest = drop_spaces cs in if is_space c then rest else c ∷ cs

reverse_onto : List ℕ → List ℕ → List ℕ
reverse_onto acc [] = acc
reverse_onto acc (c ∷ cs) = reverse_onto (c ∷ acc) cs

-- value.strip()
strip : List ℕ → List ℕ
unfolding drop_spaces reverse_onto
strip cs = reverse_onto [] (drop_spaces (reverse_onto [] (drop_spaces cs)))

-- The seconds in a unit.
unit_seconds : ℕ → Option ℕ
unit_seconds c =
    if nat_eq c b'h'
    then some 3600
    else if nat_eq c b'm'
    then some 60
    else if nat_eq c b's'
    then some 1
    else none

-- Where the reader stands: before a number, in its whole part, behind its point, or in its fraction
-- (its digits as one number, and how many stand behind the point).
pub data Place : Type 0 where
  between : Place
  whole_part : ℕ → Place
  point : ℕ → Place
  fraction : ℕ → ℕ → Place

-- Microseconds in an amount of some unit.
amount : ℕ → ℕ → ℕ → ℕ
amount value places seconds = value * seconds * 1000000 / 10 ^ places

close : ℕ → ℕ → ℕ → ℕ → Option (Place × ℕ)
unfolding unit_seconds amount
close c value places total = elim (unit_seconds c) [
  | none ↦ none
  | some seconds ↦ some (between, total + amount value places seconds)
]

-- One character: the new place and the new total.
pub step : ℕ → Place → ℕ → Option (Place × ℕ)
unfolding is_digit close
step c between total = if is_digit c then some (whole_part (c - b'0'), total) else none
step c (whole_part n) total =
    if is_digit c
    then some (whole_part (10 * n + (c - b'0')), total)
    else if nat_eq c b'.'
    then some (point n, total)
    else close c n 0 total
step c (point n) total = if is_digit c then some (fraction (10 * n + (c - b'0')) 1, total) else none
step c (fraction n k) total =
    if is_digit c then some (fraction (10 * n + (c - b'0')) (suc k), total) else close c n k total

finish : Place → ℕ → Option ℕ
finish between total = some total
finish _ total = none

pub read : List ℕ → Place → ℕ → Option ℕ
unfolding step finish
read [] p total = finish p total
read (c ∷ cs) p total = elim (step c p total) [ none ↦ none | some (q, t) ↦ read cs q t ]

-- `datetime.timedelta(seconds=…)`, which holds less than 1000000000 days and otherwise raises an
-- OverflowError.
timedelta : ℕ → Result ℕ
timedelta t =
    if ltb t (86400000000 * 1000000000)
    then ok t
    else raised (record { kind = other_error; text = "must have magnitude <= 999999999" })

pub parse_codes : List ℕ → Result ℕ
unfolding read timedelta
parse_codes [] = raised (record { kind = value_error; text = "empty duration" })
parse_codes (c ∷ cs) = elim (read (c ∷ cs) between 0) [
  | none ↦ raised (record { kind = value_error; text = "not a Go duration" })
  | some t ↦ timedelta t
]

pub parse_go_duration : String → Result ℕ
unfolding strip parse_codes
parse_go_duration value = parse_codes (strip (codes value))
