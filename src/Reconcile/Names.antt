-- ===== src/Reconcile/Names.antt =====
-- `sorted(set(wanted) - have)` and `', '.join`.
use Prim.Native.String.{String, compare}
use text.Mathlib.Text.{is_lt}
use cert_publisher.Prelude.{
  true, ◌≡◌, refl, inl, inr, List, [], ◌∷◌, All, ◌==◌, arith, if◌then◌else◌, Bool-cases,
}
use cert_publisher.Prelude.Keys.{contains}
use cert_publisher.Prelude.Text.{concat}

-- Into a sorted list without repetitions.
insert_name : String → List String → List String
insert_name n [] = n ∷ []
insert_name n (m ∷ ms) =
    let rest = insert_name n ms in
    if n == m then m ∷ ms else if is_lt (compare n m) then n ∷ m ∷ ms else m ∷ rest

unfoldable pub missing_names : List String → List String → List String
unfolding insert_name
missing_names [] have = []
missing_names (n ∷ ns) have =
    if contains n have then missing_names ns have else insert_name n (missing_names ns have)

unfoldable pub comma_join : List String → String
comma_join [] = ""
comma_join (n ∷ []) = n
comma_join (n ∷ m ∷ ns) = concat (n ∷ ", " ∷ comma_join (m ∷ ns) ∷ [])

-- Every wanted name is there.
abbrev pub Covers : List String → List String → Type 0
Covers wanted have = All (λ n. contains n have ≡ true) wanted

insert_name-ne-nil : (n : String) (ms : List String) → insert_name n ms ≡ [] → ⊥
unfolding insert_name
insert_name-ne-nil n [] e = cc
insert_name-ne-nil n (m ∷ ms) e = ground arith

-- Nothing is missing exactly if every wanted name is there.
pub missing_names-nil :
    (wanted have : List String) → missing_names wanted have ≡ [] → Covers wanted have
unfolding missing_names
missing_names-nil [] have e = tt
missing_names-nil (n ∷ ns) have e = elim (Bool-cases (contains n have)) [
  | inl h ↦ (h, missing_names-nil ns have (simp h at e))
  | inr h ↦ absurd (insert_name-ne-nil n _ (simp h at e))
]

pub missing_names-Covers :
    (wanted have : List String) → Covers wanted have → missing_names wanted have ≡ []
unfolding missing_names
missing_names-Covers [] have c = refl
missing_names-Covers (n ∷ ns) have c = simp c.0 (missing_names-Covers ns have c.1)
