-- ===== src/Json.antt =====
-- JSON values as the Kubernetes client hands them over, and Python's equality on
-- them.
pub mod Equality
use cert_publisher.Prelude.{
  ℕ, suc, String, Bool, true, false, ◌&&◌, Option, none, some, ◌==◌, nat_eq, if◌then◌else◌,
}

mutual
  pub data Json : Type 0 where
    null : Json
    boolean : Bool → Json
    number : ℕ → Json
    text : String → Json
    array : Items → Json
    object : Fields → Json

  pub data Items : Type 0 where
    nil : Items
    cons : Json → Items → Items

  pub data Fields : Type 0 where
    end : Fields
    field : String → Json → Fields → Fields

-- `d.get(key)`
unfoldable pub get_field : String → Fields → Option Json
get_field k end = none
get_field k (field j v fs) = if j == k then some v else get_field k fs

unfoldable pub count_fields : Fields → ℕ
count_fields end = 0
count_fields (field k v fs) = suc (count_fields fs)

same_bool : Bool → Bool → Bool
same_bool true b = b
same_bool false true = false
same_bool false false = true

-- Python's `==`: dicts are equal with the same keys and equal values, in any order. The keys of a
-- dict are distinct.
unfoldable mutual
  unfolding get_field count_fields same_bool

  pub json_eq : Json → Json → Bool
  json_eq null null = true
  json_eq (boolean b) (boolean c) = same_bool b c
  json_eq (number m) (number n) = nat_eq m n
  json_eq (text s) (text t) = s == t
  json_eq (array xs) (array ys) = items_eq xs ys
  json_eq (object fs) (object gs) = nat_eq (count_fields fs) (count_fields gs) && fields_in fs gs
  json_eq _ _ = false

  pub items_eq : Items → Items → Bool
  items_eq nil nil = true
  items_eq (cons x xs) (cons y ys) = json_eq x y && items_eq xs ys
  items_eq _ _ = false

  -- Every field of the first has an equal value in the second.
  pub fields_in : Fields → Fields → Bool
  fields_in end gs = true
  fields_in (field k v fs) gs =
      elim (get_field k gs) [ none ↦ false | some w ↦ json_eq v w ] && fields_in fs gs
