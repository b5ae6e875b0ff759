-- ===== src/Certmanager/Drift.antt =====
-- When a Certificate counts as out of date.
use cert_publisher.Prelude.{
  String, ◌≡◌, refl, sym, true, false, Option, none, some, List, [], ◌∷◌, ◌==◌, subst,
}
use cert_publisher.Json.{Json, Fields, text, array, end, field, get_field}
use cert_publisher.Json.Equality.{
  IsWellFormed, AllWellFormed, IsDict, IsWithin, IsWithin-tail, json_eq_refl, get_field-head, both,
}
use cert_publisher.Resources.{Publication, ManagedCertificate}
use cert_publisher.Certmanager.{
  texts, optional_text, optional_texts, optional_json, build_certificate_spec, matches, all_match,
  certificate_spec_drift,
}

module _ (current : Fields) where
  all_match-IsWithin : (fs : Fields) → IsDict fs → IsWithin fs current → all_match current fs ≡ true
  unfolding all_match matches IsDict
  all_match-IsWithin end w h = refl
  all_match-IsWithin (field k v fs) w h =
      both _ _
        (subst (λ o. matches o v ≡ true) (sym (h k v (get_field-head k v fs))) (json_eq_refl v w.1))
        (all_match-IsWithin fs w.2 (IsWithin-tail k v fs current w.0 h))

-- A key that is not among the fields.
module _ (k : String) (fs : Fields) (n : get_field k fs ≡ none) where
  field-none : (key : String) (v : Json) → (key == k) ≡ false → get_field k (field key v fs) ≡ none
  unfolding get_field
  field-none key v e = simp e n

  optional_text-none :
      (key : String) (o : Option String)
      → (key == k) ≡ false
      → get_field k (optional_text key o fs) ≡ none
  unfolding optional_text
  optional_text-none key none e = n
  optional_text-none key (some s) e = field-none key _ e

  optional_texts-none :
      (key : String) (o : Option (List String))
      → (key == k) ≡ false
      → get_field k (optional_texts key o fs) ≡ none
  unfolding optional_texts
  optional_texts-none key none e = n
  optional_texts-none key (some ss) e = field-none key _ e

  optional_json-none :
      (key : String) (o : Option Json)
      → (key == k) ≡ false
      → get_field k (optional_json key o fs) ≡ none
  unfolding optional_json
  optional_json-none key none e = n
  optional_json-none key (some v) e = field-none key _ e

end-none : (k : String) → get_field k end ≡ none
unfolding get_field
end-none k = refl

ruleset absent_rules =
    (field-none, optional_text-none, optional_texts-none, optional_json-none, end-none, refl)

texts-AllWellFormed : (ss : List String) → AllWellFormed (texts ss)
unfolding texts AllWellFormed IsWellFormed
texts-AllWellFormed [] = tt
texts-AllWellFormed (s ∷ ss) = (tt, texts-AllWellFormed ss)

-- The JSON that a value of the spec may hold.
abbrev pub IsWellFormedOption : Option Json → Type 0
IsWellFormedOption none = Unit
IsWellFormedOption (some v) = IsWellFormed v

module _ (key : String) (fs : Fields) (n : get_field key fs ≡ none) (w : IsDict fs) where
  field-IsDict : (v : Json) → IsWellFormed v → IsDict (field key v fs)
  unfolding IsDict
  field-IsDict v i = (n, i, w)

  optional_text-IsDict : (o : Option String) → IsDict (optional_text key o fs)
  unfolding optional_text IsDict IsWellFormed
  optional_text-IsDict none = w
  optional_text-IsDict (some s) = (n, tt, w)

  optional_texts-IsDict : (o : Option (List String)) → IsDict (optional_texts key o fs)
  unfolding optional_texts IsDict IsWellFormed
  optional_texts-IsDict none = w
  optional_texts-IsDict (some ss) = (n, texts-AllWellFormed ss, w)

  optional_json-IsDict : (o : Option Json) → IsWellFormedOption o → IsDict (optional_json key o fs)
  unfolding optional_json IsDict
  optional_json-IsDict none i = w
  optional_json-IsDict (some v) i = (n, i, w)

build_certificate_spec-IsDict :
    (p : Publication) (secret_name : String)
    → IsWellFormed p.spec.issuer_ref
    → IsWellFormedOption p.spec.private_key
    → IsDict (build_certificate_spec p secret_name)
unfolding build_certificate_spec IsDict IsWellFormed
build_certificate_spec-IsDict p secret_name i j =
    field-IsDict _ _ (search absent_rules depth 14)
      (field-IsDict _ _ (search absent_rules depth 14)
        (field-IsDict _ _ (search absent_rules depth 14)
          (optional_text-IsDict _ _ (search absent_rules depth 14)
            (optional_text-IsDict _ _ (search absent_rules depth 14)
              (optional_text-IsDict _ _ (search absent_rules depth 14)
                (optional_texts-IsDict _ _ (search absent_rules depth 14)
                  (optional_json-IsDict _ _ (search absent_rules depth 14) tt p.spec.private_key j)
                  p.spec.usages)
                p.spec.renew_before)
              p.spec.duration)
            p.spec.common_name)
          p.spec.issuer_ref i)
        (array (texts p.spec.dns_names)) (texts-AllWellFormed p.spec.dns_names))
      (text secret_name) tt

-- A Certificate that holds every field that the publication asks for is not out of date, whatever
-- other fields it has beside them, if the JSON of the publication has no object with a key twice.
pub certificate_spec_drift-none :
    (existing : ManagedCertificate) (p : Publication) (secret_name : String)
    → IsWellFormed p.spec.issuer_ref
    → IsWellFormedOption p.spec.private_key
    → IsWithin (build_certificate_spec p secret_name) existing.spec
    → certificate_spec_drift existing p secret_name ≡ none
unfolding certificate_spec_drift
certificate_spec_drift-none existing p secret_name i j h =
    simp (all_match-IsWithin existing.spec _ (build_certificate_spec-IsDict p secret_name i j) h)
      refl
