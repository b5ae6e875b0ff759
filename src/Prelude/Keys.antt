-- ===== src/Prelude/Keys.antt =====
-- Python's `set` and `dict` with text keys. The program never reads the order of the elements of
-- one, so a set is a list in which `discard` removes every occurrence, and a dict a list of pairs.
use Prim.Native.String.{String}
use mathlib.Core.Path.{◌≡◌, refl}
use mathlib.Core.Bool.{Bool, true, false, ◌||◌}
use mathlib.Core.Option.{Option, none, some}
use mathlib.Core.List.{List, [], ◌∷◌}
use native.Mathlib.Omega.{arith}
use text.Mathlib.TextEquality.{eq_iff}
use text.Mathlib.TextPositions.{eq_refl}
use cert_publisher.Prelude.Tests.{◌==◌, if◌then◌else◌}

-- `k in s`
unfoldable pub contains : String → List String → Bool
contains k [] = false
contains k (j ∷ s) = j == k || contains k s

-- `s.add(k)`
unfoldable pub insert : String → List String → List String
insert k s = k ∷ s

-- `s.discard(k)`
unfoldable pub discard : String → List String → List String
discard k [] = []
discard k (j ∷ s) = let rest = discard k s in if j == k then rest else j ∷ rest

pub contains-insert :
    (k j : String) (s : List String) → contains j (insert k s) ≡ (k == j || contains j s)
unfolding contains insert
contains-insert k j s = refl

pub contains-discard :
    (k j : String) (s : List String)
    → contains j (discard k s) ≡ (if k == j then false else contains j s)
unfolding contains discard
contains-discard k j [] = ground arith
contains-discard k j (i ∷ s) =
    ground (arith, contains-discard k j s, eq_iff i k, eq_iff i j, eq_iff k j)

abbrev pub Dict {ℓ} : Type ℓ → Type ℓ
Dict V = List (String × V)

module _ {ℓ} {V : Type ℓ} where
  -- `d.get(k)`
  unfoldable pub get : String → Dict V → Option V
  get k [] = none
  get k ((j, v) ∷ d) = if j == k then some v else get k d

  -- `d.pop(k, None)`, `del d[k]`
  unfoldable pub remove : String → Dict V → Dict V
  remove k [] = []
  remove k ((j, v) ∷ d) = let rest = remove k d in if j == k then rest else (j, v) ∷ rest

  -- `d[k] = v`
  unfoldable pub put : String → V → Dict V → Dict V
  unfolding remove
  put k v d = (k, v) ∷ remove k d

  pub get-remove :
      (k j : String) (d : Dict V) → get j (remove k d) ≡ (if k == j then none else get j d)
  unfolding get remove
  get-remove k j [] = ground arith
  get-remove k j ((i, v) ∷ d) = ground (arith, get-remove k j d, eq_iff i k, eq_iff i j, eq_iff k j)

  pub get-put :
      (k j : String) (v : V) (d : Dict V) → get j (put k v d) ≡ (if k == j then some v else get j d)
  unfolding get put
  get-put k j v d = ground (arith, get-remove k j d)

pub self_eq : (k : String) → (k == k) ≡ true
self_eq k = eq_refl k

pub ruleset key_laws = (contains-insert, contains-discard, get-remove, get-put, self_eq)
