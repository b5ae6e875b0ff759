-- ===== src/Reconcile/SecretKeyed/Safety.antt =====
-- What a whole pass over a publication with a key of cert-manager's may do to the host.
use cert_publisher.Prelude.{◌≡◌, refl, String, Bool, true, false, Option, none, some, inl}
use cert_publisher.Resources.{Bytes, Spec, Publication, ManagedCertificate, X509}
use cert_publisher.Json.{Fields}
use cert_publisher.Effects.{
  Exception, ok, World, State, builds_provisioner, checks_current, installs,
}
use cert_publisher.Effects.Hoare.{
  Post, called, Post-bind, Post-perform, Post-lift, Post-get_publication,
}
use cert_publisher.Utils.{sha256_fingerprint, leaf_certificate, and_then-eq-ok}
use cert_publisher.Status.{Options}
use cert_publisher.Reconcile.Keeps.{
  Stable, Keeps, keeps_rules, Keeps-perform, Keeps-get_certificate, Keeps-get_secret,
  Keeps-create_certificate, Keeps-patch_certificate,
}
use cert_publisher.Reconcile.Policy.{IsSound, IsSound-Stable, Asked}
use cert_publisher.Reconcile.SecretKeyed.{
  key_pair, report, await, publish, deliver, follow_drift, ensure, reconcile_secret_keyed,
}

module _ ⦃w : World⦄ {P : State → Type 0} (st : Stable P) where
  pub Keeps-await : (message : String) → Keeps P (await message)
  unfolding await
  Keeps-await message = search keeps_rules depth 12

  pub Keeps-report : (message : String) (o : Options) → Keeps P (report message o)
  unfolding report
  Keeps-report message o = search keeps_rules depth 12

module _ ⦃w : World⦄ (spec : Spec) where
  abbrev Kept : {A : Type 0} → A → State → Type 0
  Kept _ t = IsSound spec t

  abbrev Sound : Exception → State → Type 0
  Sound _ t = IsSound spec t

  fingerprint-leaf :
      (cert_pem : Bytes) (f : String)
      → sha256_fingerprint cert_pem ≡ ok f
      → (cert : X509) × (leaf_certificate cert_pem ≡ ok cert)
  unfolding sha256_fingerprint
  fingerprint-leaf cert_pem f e =
      let (cert, h, _) = and_then-eq-ok (leaf_certificate cert_pem) _ e in (cert, h)

  publish-IsSound :
      (current : Bool × Option String) (fingerprint : String) (cert_pem key_pem : Bytes) (s : State)
      → sha256_fingerprint cert_pem ≡ ok fingerprint
      → Asked cert_pem s.history
      → IsSound spec s
      → Post Kept Sound (publish current fingerprint cert_pem key_pem s)
  unfolding publish
  publish-IsSound (true, warning) fingerprint cert_pem key_pem s e a i =
      (Keeps-report (IsSound-Stable spec) _ _).at s i
  publish-IsSound (false, warning) fingerprint cert_pem key_pem s e a i =
      Post-bind Kept _ _ _ _ s
        (Post-perform _ _ _ _ s (λ u _. installed true) (λ x. installed false))
        (λ _ t j. (Keeps-report (IsSound-Stable spec) _ _).at t j)
    where
      installed : (b : Bool) → IsSound spec (called (installs cert_pem key_pem) b s)
      installed b = record {
        spec_eq = i.spec_eq;
        safe = ((a, fingerprint-leaf cert_pem fingerprint e), i.safe);
      }

  deliver-IsSound :
      (pair : Option (Bytes × Bytes)) (s : State)
      → IsSound spec s
      → Post Kept Sound (deliver pair s)
  unfolding deliver
  deliver-IsSound none s i = (Keeps-await (IsSound-Stable spec) _).at s i
  deliver-IsSound (some (cert_pem, key_pem)) s i =
      let st = IsSound-Stable spec in
      Post-get_publication _ _ _ s (
        Post-lift _ _ (sha256_fingerprint cert_pem) _ s
          (λ fingerprint e.
            Post-bind Kept _ _ _ _ s ((Keeps-perform st builds_provisioner _ tt).at s i) (λ _ t j.
              Post-bind (λ _ u. IsSound spec u × Asked cert_pem u.history) _ _ _ _ t
                (Post-perform _ _ _ _ t
                  (λ a _. (st.call (checks_current cert_pem) true t tt j, inl refl))
                  (λ x. st.call (checks_current cert_pem) false t tt j))
                (λ current u (k, a). publish-IsSound current fingerprint cert_pem key_pem u e a k)))
          (λ e. i))

  follow_drift-IsSound :
      (p : Publication) (drift : Option Fields) (s : State)
      → IsSound spec s
      → Post Kept Sound (follow_drift p drift s)
  unfolding follow_drift
  follow_drift-IsSound p (some drift) s i =
      let st = IsSound-Stable spec in
      Post-bind Kept _ _ _ _ s ((Keeps-patch_certificate st p.namespace p.name drift).at s i)
        (λ _ t j. (Keeps-await st _).at t j)
  follow_drift-IsSound p none s i =
      Post-bind Kept _ _ _ _ s ((Keeps-get_secret (IsSound-Stable spec) p.namespace _).at s i)
        (λ secret t j.
          Post-lift _ _ (key_pair secret) _ t (λ pair e. deliver-IsSound pair t j) (λ e. j))

  ensure-IsSound :
      (p : Publication) (existing : Option ManagedCertificate) (s : State)
      → IsSound spec s
      → Post Kept Sound (ensure p existing s)
  unfolding ensure
  ensure-IsSound p none s i =
      let st = IsSound-Stable spec in
      Post-bind Kept _ _ _ _ s ((Keeps-create_certificate st p.namespace _).at s i)
        (λ _ t j. (Keeps-await st _).at t j)
  ensure-IsSound p (some existing) s i = follow_drift-IsSound p _ s i

  -- A pass over a publication whose key belongs to cert-manager is safe, whether it returns or
  -- raises. It installs a certificate with its key only if the certificate can be parsed, and after
  -- it asked the host whether it already has it.
  pub reconcile_secret_keyed-IsSound :
      (s : State) → IsSound spec s → Post Kept Sound (reconcile_secret_keyed s)
  unfolding reconcile_secret_keyed
  reconcile_secret_keyed-IsSound s i = Post-get_publication _ _ _ s (
      Post-bind Kept _ _ _ _ s
        ((Keeps-get_certificate (IsSound-Stable spec) s.publication.namespace s.publication.name).at
          s i)
        (λ existing t j. ensure-IsSound s.publication existing t j))
