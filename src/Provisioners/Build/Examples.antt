-- ===== src/Provisioners/Build/Examples.antt =====
-- The provisioners that are built, from small mappings.
use cert_publisher.Prelude.{ℕ, String, ◌≡◌, none, some, [], ◌∷◌}
use cert_publisher.Resources.{Bytes}
use cert_publisher.Effects.{Result, ok, State, World}
use cert_publisher.Effects.Hoare.{Post}
use cert_publisher.Samples.{world, publication}
use cert_publisher.Provisioners.Samples.{outside}
use cert_publisher.Provisioners.Credentials.{resolve_credentials}
use cert_publisher.Provisioners.Credentials.Local.{IsLocal, resolve_credentials-IsLocal}
use cert_publisher.Provisioners.Build.{ProvisionerSpec, build_provisioner}
use cert_publisher.Provisioners.Build.Local.{ReadsOne, type_of, build_provisioner-IsBuilt}

abbrev decode : Bytes → Result String
decode b = ok "secret"

abbrev int_base_8 : String → Result ℕ
int_base_8 s = ok 420

abbrev mapping : ProvisionerSpec
mapping = record {
  type = "ssh";
  ssh = some (record {
    host = "ssh.example";
    port = none;
    username = "root";
    host_fingerprint = "SHA256:x";
    auth = some (record { secret_ref = some "login" });
    cert_path = "/etc/tls/tls.crt";
    key_path = "/etc/tls/tls.key";
    file_mode = none;
    key_file_mode = none;
    post_install_script = none;
  });
  winrm = none;
  idrac8 = none;
}

abbrev unused : State
unused = record { publication = publication; history = []; readings = 0 }

build_provisioner-IsBuilt_example :
    Post
      (λ p t. (type_of p ≡ "ssh") × ReadsOne "ns" unused t)
      (λ e t. ReadsOne "ns" unused t)
      (build_provisioner ⦃w = world⦄ ⦃o = outside⦄ decode int_base_8 (λ s. s) mapping "ns" unused)
build_provisioner-IsBuilt_example =
    build_provisioner-IsBuilt ⦃w = world⦄ decode "ns" unused ⦃o = outside⦄ int_base_8 (λ s. s)
      mapping

-- A Secret with a password.
abbrev holding : World
holding = record world {
  read_secret = λ h n m. ok (record { contents = some (("password", "c2VjcmV0") ∷ []) });
}

resolve_credentials-IsLocal_example : IsLocal ⦃w = holding⦄ decode (some "login") "ns" unused (
    resolve_credentials decode ⦃w = holding⦄
      (some (record { secret_ref = some "login" }))
      "ns"
      unused)
resolve_credentials-IsLocal_example =
    resolve_credentials-IsLocal ⦃w = holding⦄ decode (some (record { secret_ref = some "login" }))
      "ns" unused
