-- ===== src/Reconcile/SecretKeyed.antt =====
-- src/cert_publisher/reconcile.py, _reconcile_secret_keyed: cert-manager owns the key.
pub mod Safety
use cert_publisher.Prelude.{
  String, Bool, true, false, Option, none, some, [], ◌∷◌, ◌==◌, ◌&&◌, if◌then◌else◌,
}
use cert_publisher.Prelude.Keys.{Dict, get}
use cert_publisher.Prelude.Text.{concat}
use cert_publisher.Json.{Fields}
use cert_publisher.Resources.{Bytes, Publication, ManagedCertificate, Secret}
use cert_publisher.Effects.{
  lookup_error, Result, ok, raised, World, builds_provisioner, checks_current, installs, Action,
  pure, lift, perform, get_publication, ◌>>=◌, ◌>>◌,
}
use cert_publisher.Utils.{sha256_fingerprint, and_then}
use cert_publisher.Kube.{
  get_certificate, create_certificate, patch_certificate, get_secret, secret_data,
}
use cert_publisher.Certmanager.{build_certificate_body, certificate_spec_drift}
use cert_publisher.Status.{pending, published, Options, defaults, set_status}
use cert_publisher.Reconcile.Renewal.{Requeue, awaiting_issuance_requeue}

-- `spec.get("secretName", f"{name}-tls")`
pub secret_name_of : Publication → String
secret_name_of p = elim p.spec.secret_name [ none ↦ concat (p.name ∷ "-tls" ∷ []) | some s ↦ s ]

-- `d[k]`
entry : String → Dict Bytes → Result Bytes
entry k d = elim (get k d) [
  | none ↦ raised (record { kind = lookup_error; text = k })
  | some v ↦ ok v
]

has_key : String → Option (Dict String) → Bool
has_key k none = false
has_key k (some d) = elim (get k d) [ none ↦ false | some v ↦ true ]

-- The message with the provisioner's warning, if there is one.
unfoldable pub with_warning : Option String → String
with_warning none = "Certificate up to date"
with_warning (some warning) =
    if warning == ""
    then "Certificate up to date"
    else concat ("Certificate up to date, but " ∷ warning ∷ [])

module _ ⦃w : World⦄ where
  -- The certificate and the key, decoded, if the Secret has both.
  unfoldable pub key_pair : Option Secret → Result (Option (Bytes × Bytes))
  unfolding entry has_key
  key_pair none = ok none
  key_pair (some secret) =
      if has_key "tls.crt" secret.contents && has_key "tls.key" secret.contents
      then and_then (secret_data secret) (λ contents.
        and_then (entry "tls.crt" contents)
          (λ cert. and_then (entry "tls.key" contents) (λ key. ok (some (cert, key)))))
      else ok none

  unfoldable pub await : String → Action Requeue
  await message = do set_status pending message defaults; pure (some awaiting_issuance_requeue)

  unfoldable pub report : String → Options → Action Requeue
  report message options = do set_status published message options; pure none

  unfoldable pub publish : Bool × Option String → String → Bytes → Bytes → Action Requeue
  unfolding with_warning report
  publish (true, warning) fingerprint cert_pem key_pem =
      report (with_warning warning) (record defaults { published_fingerprint = some fingerprint })
  publish (false, _) fingerprint cert_pem key_pem = do
    perform (installs cert_pem key_pem) (λ h. w.install h cert_pem key_pem)
    report "Certificate published"
        (record defaults { published_fingerprint = some fingerprint; mark_published = true })

  unfoldable pub deliver : Option (Bytes × Bytes) → Action Requeue
  unfolding await publish
  deliver none = await "Awaiting certificate issuance"
  deliver (some (cert_pem, key_pem)) = do
    p ← get_publication
    fingerprint ← lift (sha256_fingerprint cert_pem)
    perform builds_provisioner (λ h. w.build_provisioner h p)
    current ← perform (checks_current cert_pem) (λ h. w.is_current h cert_pem)
    publish current fingerprint cert_pem key_pem

  unfoldable pub follow_drift : Publication → Option Fields → Action Requeue
  unfolding deliver await
  follow_drift p (some drift) = do
    patch_certificate p.namespace p.name drift
    await "Certificate updated; awaiting reissuance"
  follow_drift p none = do
    secret ← get_secret p.namespace (secret_name_of p)
    pair ← lift (key_pair secret)
    deliver pair

  unfoldable pub ensure : Publication → Option ManagedCertificate → Action Requeue
  unfolding follow_drift await
  ensure p none = do
    create_certificate p.namespace (build_certificate_body p (secret_name_of p))
    await "Certificate created; awaiting issuance"
  ensure p (some existing) = follow_drift p (certificate_spec_drift existing p (secret_name_of p))

  unfoldable pub reconcile_secret_keyed : Action Requeue
  unfolding ensure
  reconcile_secret_keyed = do
    p ← get_publication
    existing ← get_certificate p.namespace p.name
    ensure p existing
