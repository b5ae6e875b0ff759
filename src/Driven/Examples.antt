-- ===== src/Driven/Examples.antt =====
-- The passes over an SSH host, when the certificate is in place and when nothing is.
use cert_publisher.Prelude.{◌≡◌, refl, false, true, [], ◌∷◌, suc, some, subst, ◌==◌, if◌then◌else◌}
use cert_publisher.Resources.{Secret}
use cert_publisher.Effects.{World, State, Result, ok, installs}
use cert_publisher.Effects.Hoare.{Post}
use cert_publisher.Samples.{world, publication}
use cert_publisher.Utils.Pem.Bare.{bare}
use cert_publisher.Reconcile.SecretKeyed.{reconcile_secret_keyed, key_pair}
use cert_publisher.Provisioners.Ssh.Sample.{outside, host, outside-IsFaithful, install-Holds_sample}
use cert_publisher.Driven.{drive, replay, advance}
use cert_publisher.Driven.Converges.{by_ssh, installs_in, IsSettled}
use cert_publisher.Driven.Installing.{IsInstalled}
use cert_publisher.Kube.{secret_data, decode_values}
use cert_publisher.Driven.Passes.{
  Issues, reconcile_secret_keyed-IsSettled, reconcile_secret_keyed-Installs,
}

abbrev issued : Secret
issued = record { contents = some (("tls.crt", "Y3J0") ∷ ("tls.key", "a2V5") ∷ []) }

abbrev issuing : World
issuing = record world {
  read_secret = λ h n m. ok issued;
  b64decode = λ v. if v == "Y3J0" then ok bare else ok [];
}

issuing-Issues : Issues issuing (bare, [])
unfolding key_pair secret_data decode_values cert_publisher.Utils.and_then
    cert_publisher.Prelude.Keys.get
issuing-Issues t namespace name secret e =
    subst (λ x. key_pair ⦃w = issuing⦄ (some x) ≡ ok (some (bare, []))) (injected e) refl
  where
    injected : ◌≡◌ {A = Result Secret} (ok issued) (ok secret) → issued ≡ secret
    injected d = cc

abbrev after : State
after = record {
  publication = publication;
  history = record { call = installs bare []; succeeded = true } ∷ [];
  readings = 0;
}

abbrev before : State
before = record { publication = publication; history = []; readings = 0 }

after-IsSettled : IsSettled ⦃w = issuing⦄ ⦃o = outside⦄ host bare 1 after
unfolding installs_in replay advance
after-IsSettled = (refl, install-Holds_sample issuing)

reconcile_secret_keyed-IsSettled_example :
    Post
      (λ _ t. IsSettled ⦃w = issuing⦄ ⦃o = outside⦄ host bare 1 t)
      (λ _ t. IsSettled ⦃w = issuing⦄ ⦃o = outside⦄ host bare 1 t)
      (reconcile_secret_keyed ⦃w = drive (by_ssh ⦃w = issuing⦄ ⦃o = outside⦄ host) issuing⦄ after)
reconcile_secret_keyed-IsSettled_example =
    reconcile_secret_keyed-IsSettled ⦃w = issuing⦄ ⦃o = outside⦄ host bare [] issuing-Issues
      outside-IsFaithful 1 after after-IsSettled

reconcile_secret_keyed-Installs_example :
    Post
      (IsInstalled ⦃w = issuing⦄ ⦃o = outside⦄ host bare [])
      (λ _ t. Unit)
      (reconcile_secret_keyed ⦃w = drive (by_ssh ⦃w = issuing⦄ ⦃o = outside⦄ host) issuing⦄ before)
reconcile_secret_keyed-Installs_example =
    reconcile_secret_keyed-Installs ⦃w = issuing⦄ ⦃o = outside⦄ host bare [] issuing-Issues refl
      before
