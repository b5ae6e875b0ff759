-- ===== src/Reconcile/Renewal/Decision.antt =====
-- When a certificate is renewed, and when a signed one may be installed.
use cert_publisher.Prelude.{String, ◌≡◌, ◌↔◌, refl, ap, Option, none, some, List, [], ◌∷◌, arith}
use cert_publisher.Resources.{Bytes, X509, Spec}
use cert_publisher.Effects.{Result, ok, raised, World}
use cert_publisher.Utils.{leaf_certificate}
use cert_publisher.Reconcile.Names.{missing_names, Covers, missing_names-nil, missing_names-Covers}
use cert_publisher.Reconcile.Renewal.{uncovered, unusable_signed_certificate, on_value_error}

module _ ⦃w : World⦄ where
  -- What makes a signed certificate fit to be installed.
  abbrev pub IsUsable : Spec → Bytes → Type 0
  IsUsable spec cert_pem =
      (cert : X509) × (leaf_certificate cert_pem ≡ ok cert) × Covers spec.dns_names cert.dns_names

  IsClean : Spec → Result X509 → Type 0
  IsClean spec r = (cert : X509) × (r ≡ ok cert) × Covers spec.dns_names cert.dns_names

  verdict_of : Spec → Result X509 → Result (Option String)
  unfolding uncovered
  verdict_of spec r =
      on_value_error r (ok (some "it could not be parsed"))
        (λ cert. ok (uncovered (missing_names spec.dns_names cert.dns_names)))

  problem_of : Result (Option String) → Option String
  problem_of (ok p) = p
  problem_of (raised e) = some e.text

  uncovered-none : (names : List String) → uncovered names ≡ none → names ≡ []
  unfolding uncovered
  uncovered-none [] e = refl
  uncovered-none (n ∷ ns) e = cc

  verdict_of-IsClean :
      (spec : Spec) (r : Result X509) → verdict_of spec r ≡ ok none → IsClean spec r
  unfolding verdict_of IsClean problem_of
  verdict_of-IsClean spec (ok cert) h =
      (cert, refl, missing_names-nil _ _ (uncovered-none _ (ap problem_of h)))
  verdict_of-IsClean spec (raised e) h = ground arith

  IsClean-verdict_of :
      (spec : Spec) (r : Result X509) → IsClean spec r → verdict_of spec r ≡ ok none
  unfolding verdict_of IsClean uncovered
  IsClean-verdict_of spec r (cert, e, c) =
      simp e (simp (missing_names-Covers spec.dns_names cert.dns_names c))

  -- A signed certificate passes exactly if it can be parsed and covers every name of the
  -- publication.
  pub unusable_signed_certificate-none :
      (cert_pem : Bytes) (spec : Spec)
      → (unusable_signed_certificate cert_pem spec ≡ ok none) ↔ IsUsable spec cert_pem
  unfolding unusable_signed_certificate verdict_of IsClean
  unusable_signed_certificate-none cert_pem spec = (
    verdict_of-IsClean spec (leaf_certificate cert_pem),
    IsClean-verdict_of spec (leaf_certificate cert_pem),
  )
