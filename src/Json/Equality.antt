-- ===== src/Json/Equality.antt =====
-- Python's equality on JSON values.
use cert_publisher.Prelude.{
  ℕ, String, ◌≡◌, refl, sym, Bool, true, false, ◌&&◌, none, some, ◌==◌, nat_eq, arith, eq_iff, inl,
  inr, Bool-cases, subst,
}
use cert_publisher.Prelude.Keys.{self_eq}
use cert_publisher.Json.{
  Json, Items, Fields, null, boolean, number, text, array, object, nil, cons, end, field, get_field,
  count_fields, same_bool, json_eq, items_eq, fields_in,
}

-- The keys of every object are distinct, as those of a Python dict are.
unfoldable mutual
  pub IsWellFormed : Json → Type 0
  IsWellFormed null = Unit
  IsWellFormed (boolean b) = Unit
  IsWellFormed (number n) = Unit
  IsWellFormed (text s) = Unit
  IsWellFormed (array xs) = AllWellFormed xs
  IsWellFormed (object fs) = IsDict fs

  pub AllWellFormed : Items → Type 0
  AllWellFormed nil = Unit
  AllWellFormed (cons x xs) = IsWellFormed x × AllWellFormed xs

  pub IsDict : Fields → Type 0
  IsDict end = Unit
  IsDict (field k v fs) = (get_field k fs ≡ none) × IsWellFormed v × IsDict fs

-- Every field of the first is the same in the second.
abbrev pub IsWithin : Fields → Fields → Type 0
IsWithin fs gs = (k : String) (v : Json) → get_field k fs ≡ some v → get_field k gs ≡ some v

pub IsWithin-tail :
    (k : String) (v : Json) (fs gs : Fields)
    → get_field k fs ≡ none
    → IsWithin (field k v fs) gs
    → IsWithin fs gs
unfolding get_field
IsWithin-tail k v fs gs n h j u e = elim (Bool-cases (k == j)) [
  | inl m ↦ absurd (ground (arith, eq_iff k j))
  | inr m ↦ h j u (simp m e)
]

same_bool_refl : (b : Bool) → same_bool b b ≡ true
unfolding same_bool
same_bool_refl true = refl
same_bool_refl false = refl

pub get_field-head : (k : String) (v : Json) (fs : Fields) → get_field k (field k v fs) ≡ some v
unfolding get_field
get_field-head k v fs = simp (self_eq k) refl

pub both : (a b : Bool) → a ≡ true → b ≡ true → (a && b) ≡ true
both a b e f = ground arith

nat_eq_refl : (n : ℕ) → nat_eq n n ≡ true
nat_eq_refl n = ground arith

mutual
  unfolding json_eq items_eq fields_in IsWellFormed AllWellFormed IsDict

  pub json_eq_refl : (v : Json) → IsWellFormed v → json_eq v v ≡ true
  json_eq_refl null w = refl
  json_eq_refl (boolean b) w = same_bool_refl b
  json_eq_refl (number n) w = nat_eq_refl n
  json_eq_refl (text s) w = self_eq s
  json_eq_refl (array xs) w = items_eq_refl xs w
  json_eq_refl (object fs) w =
      simp (nat_eq_refl (count_fields fs)) (fields_in-IsWithin fs fs w (λ k v e. e))

  items_eq_refl : (xs : Items) → AllWellFormed xs → items_eq xs xs ≡ true
  items_eq_refl nil w = refl
  items_eq_refl (cons x xs) w = simp (json_eq_refl x w.0) (items_eq_refl xs w.1)

  pub fields_in-IsWithin : (fs gs : Fields) → IsDict fs → IsWithin fs gs → fields_in fs gs ≡ true
  fields_in-IsWithin end gs w h = refl
  fields_in-IsWithin (field k v fs) gs w h =
      let g = h k v (get_field-head k v fs) in
      both _ _
        (subst (λ o. (elim o [ none ↦ false | some u ↦ json_eq v u ]) ≡ true) (sym g)
          (json_eq_refl v w.1))
        (fields_in-IsWithin fs gs w.2 (IsWithin-tail k v fs gs w.0 h))
