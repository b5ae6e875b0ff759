-- ===== src/Reconcile/Examples.antt =====
-- The properties of the passes, on a publication whose host serves no certificate.
use cert_publisher.Prelude.{arith, ◌≡◌, ◌↔◌, refl, true, none, []}
use cert_publisher.Effects.{ok}
use cert_publisher.Effects.Hoare.{Post}
use cert_publisher.Reconcile.Policy.{IsSound, IsFresh}
use cert_publisher.Reconcile.Renewal.{unusable_signed_certificate}
use cert_publisher.Reconcile.Renewal.Decision.{IsUsable, unusable_signed_certificate-none}
use cert_publisher.Reconcile.Signing.{start_signing}
use cert_publisher.Reconcile.Signing.Rounds.{start_signing-IsSound}
use cert_publisher.Reconcile.Resolution.{resolve_pending_request}
use cert_publisher.Reconcile.Resolution.Import.{resolve_pending_request-IsSound}
use cert_publisher.Reconcile.HostKeyed.{reconcile_host_keyed}
use cert_publisher.Reconcile.HostKeyed.Cooldown.{IsUnrotated, reconcile_host_keyed-IsUnrotated}
use cert_publisher.Reconcile.{reconcile_publication}
use cert_publisher.Reconcile.Safety.{reconcile_publication-IsSound}
use cert_publisher.Samples.{world, spec, fresh, signing}

fresh-IsSound : IsSound ⦃w = world⦄ spec fresh
fresh-IsSound = record { spec_eq = refl; safe = tt }

fresh-IsFresh : IsFresh ⦃w = world⦄ spec fresh
fresh-IsFresh = record { sound = fresh-IsSound; unrotated = refl }

start_signing-IsSound_example :
    Post
      (λ _ t. IsSound ⦃w = world⦄ spec t)
      (λ _ t. IsSound ⦃w = world⦄ spec t)
      (start_signing ⦃w = world⦄ "due" true fresh)
start_signing-IsSound_example =
    start_signing-IsSound ⦃w = world⦄ spec "due" true fresh fresh-IsFresh

resolve_pending_request-IsSound_example :
    Post
      (λ _ t. IsSound ⦃w = world⦄ spec t)
      (λ _ t. IsSound ⦃w = world⦄ spec t)
      (resolve_pending_request ⦃w = world⦄ "host-0123456789" fresh)
resolve_pending_request-IsSound_example =
    resolve_pending_request-IsSound ⦃w = world⦄ spec "host-0123456789" fresh fresh-IsSound

unusable_signed_certificate-none_example :
    (unusable_signed_certificate ⦃w = world⦄ [] spec ≡ ok none) ↔ IsUsable ⦃w = world⦄ spec []
unusable_signed_certificate-none_example = unusable_signed_certificate-none ⦃w = world⦄ [] spec

reconcile_host_keyed-IsUnrotated_example :
    Post (λ _ t. IsUnrotated t) (λ _ t. IsUnrotated t) (reconcile_host_keyed ⦃w = world⦄ signing)
unfolding cert_publisher.Utils.parse_rfc3339 cert_publisher.Reconcile.HostKeyed.spec_changed
reconcile_host_keyed-IsUnrotated_example =
    reconcile_host_keyed-IsUnrotated ⦃w = world⦄ signing "0001-01-01T00:00:00Z" 0 refl refl refl
      (λ n. omega arith) refl refl

reconcile_publication-IsSound_example :
    Post
      (λ _ t. IsSound ⦃w = world⦄ spec t)
      (λ _ t. IsSound ⦃w = world⦄ spec t)
      (reconcile_publication ⦃w = world⦄ fresh)
reconcile_publication-IsSound_example =
    reconcile_publication-IsSound ⦃w = world⦄ spec fresh fresh-IsFresh
