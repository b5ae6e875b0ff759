-- ===== src/Provisioners/Credentials.antt =====
-- src/cert_publisher/provisioners/base.py: the login of a target host, from the Secret that the
-- publication names. `decode` is `bytes.decode`, which fails on what is not UTF-8.
pub mod Local
use cert_publisher.Prelude.{String, Option, none, some, ◌∷◌, [], if◌then◌else◌, ◌==◌}
use cert_publisher.Prelude.Keys.{Dict, get}
use cert_publisher.Prelude.Text.{concat}
use cert_publisher.Resources.{Bytes, Secret}
use cert_publisher.Effects.{
  value_error, lookup_error, Result, ok, raised, World, Action, pure, raise, lift, ◌>>=◌,
}
use cert_publisher.Utils.{and_then}
use cert_publisher.Kube.{get_secret, secret_data}

pub record Credentials : Type 0 where
  pub password : Option String
  pub private_key : Option String
  pub passphrase : Option String

-- An `auth` mapping: the name in its `secretRef`, if it has one.
pub record Auth : Type 0 where
  pub secret_ref : Option String

module _ (decode : Bytes → Result String) where
  decoded : Option Bytes → Result (Option String)
  unfolding and_then
  decoded none = ok none
  decoded (some value) = and_then (decode value) (λ text. ok (some text))

  unfoldable pub field : Dict Bytes → String → Result (Option String)
  unfolding decoded
  field contents name = decoded (get name contents)

  unfoldable pub credentials_of : Dict Bytes → Result Credentials
  unfolding field and_then
  credentials_of contents = and_then (field contents "password") (λ password.
      and_then (field contents "privateKey") (λ private_key.
        and_then (field contents "passphrase") (λ passphrase.
          ok (record { password = password; private_key = private_key; passphrase = passphrase }))))

  module _ ⦃w : World⦄ where
    use_secret : String → String → Option Secret → Action Credentials
    unfolding credentials_of and_then
    use_secret namespace name none = raise (record {
      kind = lookup_error;
      text =
          concat
            ("auth secret " ∷ w.repr name ∷ " not found in namespace " ∷ w.repr namespace ∷ []);
    })
    use_secret namespace name (some secret) = lift (and_then (secret_data secret) credentials_of)

    resolve_named : Option String → String → Action Credentials
    unfolding use_secret
    resolve_named none namespace =
        raise (record { kind = value_error; text = "provisioner auth.secretRef is required" })
    resolve_named (some name) namespace = do
      secret ← get_secret namespace name
      use_secret namespace name secret

    -- An absent `auth` is empty.
    unfoldable pub resolve_credentials : Option Auth → String → Action Credentials
    unfolding resolve_named
    resolve_credentials none namespace = resolve_named none namespace
    resolve_credentials (some auth) namespace = resolve_named auth.secret_ref namespace
