-- ===== src/Reconcile/Safety.antt =====
-- What a whole pass may do to the host and to the signing requests.
use cert_publisher.Prelude.{true, false, if◌then◌else◌}
use cert_publisher.Resources.{Spec}
use cert_publisher.Effects.{World, State}
use cert_publisher.Effects.Hoare.{Post, Post-get_publication}
use cert_publisher.Reconcile.{manages_own_key, reconcile_publication}
use cert_publisher.Reconcile.Policy.{IsSound, IsFresh}
use cert_publisher.Reconcile.SecretKeyed.{reconcile_secret_keyed}
use cert_publisher.Reconcile.SecretKeyed.Safety.{reconcile_secret_keyed-IsSound}
use cert_publisher.Reconcile.HostKeyed.{reconcile_host_keyed}
use cert_publisher.Reconcile.HostKeyed.Safety.{reconcile_host_keyed-IsSound}

-- From a state in which no CSR was asked for, a pass over any publication is safe, whatever the host
-- and the server answer, whether it returns or raises. A CSR is asked for at most once, after the
-- time of signing was stored; a certificate is imported only if it can be parsed and covers every
-- name of the publication; a request is created only after its name was stored; a certificate is
-- installed with its key only if it can be parsed, and after the host was asked whether it has it.
pub reconcile_publication-IsSound :
    ⦃w : World⦄ (spec : Spec) (s : State)
    → IsFresh spec s
    → Post (λ _ t. IsSound spec t) (λ _ t. IsSound spec t) (reconcile_publication s)
unfolding reconcile_publication
reconcile_publication-IsSound ⦃w⦄ spec s f =
    Post-get_publication _ _ _ s
      (elim (manages_own_key s.publication.spec.provisioner_type)
        as (λ b.
          Post (λ _ t. IsSound spec t) (λ _ t. IsSound spec t)
            ((if b then reconcile_host_keyed else reconcile_secret_keyed) s)) [
              | true ↦ reconcile_host_keyed-IsSound spec s f
              | false ↦ reconcile_secret_keyed-IsSound spec s f.sound
            ])
