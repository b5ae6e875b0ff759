-- ===== src/Provisioners/Build.antt =====
-- src/cert_publisher/provisioners/__init__.py and the `from_spec` of each provisioner: a provisioner
-- from the mapping `spec.provisioner` of a publication. The schema of the CRD requires the fields that are not optional here.
pub mod Local
mod Examples
use cert_publisher.Prelude.{
  ℕ, String, Bool, true, false, not, ◌&&◌, Option, none, some, [], ◌∷◌, ◌==◌, if◌then◌else◌,
}
use cert_publisher.Prelude.Text.{concat}
use cert_publisher.Resources.{Bytes}
use cert_publisher.Effects.{
  value_error, lookup_error, Exception, Result, ok, raised, World, Action, pure, raise, lift, ◌>>=◌,
}
use cert_publisher.Provisioners.Xml.{strip}
use cert_publisher.Provisioners.Credentials.{Credentials, Auth, resolve_credentials}
use cert_publisher.Provisioners.Idrac8.{Idrac8}
use cert_publisher.Provisioners.Ssh.{Ssh, truthy, or_default}
use cert_publisher.Provisioners.Powershell as Powershell
use cert_publisher.Provisioners.WinrmSession.{Winrm, mode_cert_store, mode_file, without, create}

-- The mapping `ssh`.
pub record SshSpec : Type 0 where
  pub host : String
  pub port : Option ℕ
  pub username : String
  pub host_fingerprint : String
  pub auth : Option Auth
  pub cert_path : String
  pub key_path : String
  pub file_mode : Option String
  pub key_file_mode : Option String
  pub post_install_script : Option String

-- The mapping `winrm`.
pub record WinrmSpec : Type 0 where
  pub host : String
  pub port : Option ℕ
  pub username : String
  pub thumbprint : String
  pub transport : Option String
  pub auth : Option Auth
  pub mode : Option String
  pub store_location : Option String
  pub store_name : Option String
  pub cert_path : Option String
  pub key_path : Option String
  pub post_install_script : Option String
  pub exportable_private_key : Option Bool
  pub powershell : Option String

-- The mapping `idrac8`.
pub record Idrac8Spec : Type 0 where
  pub host : String
  pub port : Option ℕ
  pub username : String
  pub auth : Option Auth
  pub bootstrap_thumbprint : Option String
  pub ca_bundle : Option String
  pub reset : Option Bool

-- The mapping `spec.provisioner`.
pub record ProvisionerSpec : Type 0 where
  pub type : String
  pub ssh : Option SshSpec
  pub winrm : Option WinrmSpec
  pub idrac8 : Option Idrac8Spec

pub data Provisioner : Type 0 where
  by_ssh : Ssh → Provisioner
  by_winrm : Winrm → Provisioner
  by_idrac8 : Idrac8 → Provisioner

-- `decode` is bytes.decode, `int_base_8` is int(…, 8) and `lower` is str.lower.
module _ ⦃w : World⦄ ⦃o : Powershell.Outside⦄ (decode : Bytes → Result String)
    (int_base_8 : String → Result ℕ) (lower : String → String) where
  ssh_with : SshSpec → Credentials → ℕ → ℕ → Ssh
  ssh_with spec credentials cert_mode key_mode = record {
    host = spec.host;
    port = or_default spec.port 22;
    username = spec.username;
    host_fingerprint = spec.host_fingerprint;
    credentials = credentials;
    cert_path = spec.cert_path;
    key_path = spec.key_path;
    cert_mode = cert_mode;
    key_mode = key_mode;
    post_install_script = spec.post_install_script;
  }

  -- `SSHProvisioner.from_spec`
  ssh_from_spec : SshSpec → String → Action Provisioner
  unfolding ssh_with
  ssh_from_spec spec namespace = do
    credentials ← resolve_credentials decode spec.auth namespace
    cert_mode ← lift (int_base_8 (or_default spec.file_mode "0644"))
    key_mode ← lift (int_base_8 (or_default spec.key_file_mode "0600"))
    pure (by_ssh (ssh_with spec credentials cert_mode key_mode))

  winrm_with : WinrmSpec → Credentials → Winrm
  winrm_with spec credentials = record {
    host = spec.host;
    port = or_default spec.port 5986;
    username = spec.username;
    thumbprint = spec.thumbprint;
    transport = or_default spec.transport "ntlm";
    credentials = credentials;
    mode = or_default spec.mode mode_cert_store;
    store_location = or_default spec.store_location "LocalMachine";
    store_name = or_default spec.store_name "My";
    cert_path = spec.cert_path;
    key_path = spec.key_path;
    post_install_script = spec.post_install_script;
    exportable_private_key = or_default spec.exportable_private_key false;
    powershell = or_default spec.powershell "5.1";
  }

  is_absent : Option String → Bool
  is_absent none = true
  is_absent (some s) = false

  pathless : WinrmSpec → Bool
  unfolding is_absent
  pathless spec =
      or_default spec.mode mode_cert_store == mode_file && is_absent (truthy spec.cert_path)

  no_path : Exception
  no_path = record { kind = value_error; text = "winrm file mode requires certPath" }

  create_winrm : WinrmSpec → String → Action Provisioner
  unfolding winrm_with
  create_winrm spec namespace = do
    credentials ← resolve_credentials decode spec.auth namespace
    h ← lift (create (winrm_with spec credentials))
    pure (by_winrm h)

  -- `WinRMProvisioner.from_spec`
  winrm_from_spec : WinrmSpec → String → Action Provisioner
  unfolding pathless no_path create_winrm
  winrm_from_spec spec namespace =
      if pathless spec then raise no_path else create_winrm spec namespace

  normalise_thumbprint : String → String
  normalise_thumbprint value = lower (strip (without " " (without ":" value)))

  normal : Option String → Option String
  unfolding normalise_thumbprint
  normal none = none
  normal (some value) = some (normalise_thumbprint value)

  idrac8_with : Idrac8Spec → Credentials → Idrac8
  unfolding normal
  idrac8_with spec credentials = record {
    host = spec.host;
    port = or_default spec.port 443;
    username = spec.username;
    password = credentials.password;
    bootstrap_thumbprint = normal (truthy spec.bootstrap_thumbprint);
    ca_bundle = spec.ca_bundle;
    reset = or_default spec.reset true;
  }

  -- `IDRAC8Provisioner.from_spec`
  idrac8_from_spec : Idrac8Spec → String → Action Provisioner
  unfolding idrac8_with
  idrac8_from_spec spec namespace = do
    credentials ← resolve_credentials decode spec.auth namespace
    pure (by_idrac8 (idrac8_with spec credentials))

  -- `spec[key]`
  required : {A : Type 0} → String → Option A → (A → Action Provisioner) → Action Provisioner
  required key none build = raise (record { kind = lookup_error; text = w.repr key })
  required key (some spec) build = build spec

  unknown_type : String → Exception
  unknown_type type = record {
    kind = value_error;
    text = concat ("unknown provisioner type: " ∷ w.repr type ∷ []);
  }

  unfoldable pub build_provisioner : ProvisionerSpec → String → Action Provisioner
  unfolding ssh_from_spec winrm_from_spec idrac8_from_spec required unknown_type
  build_provisioner spec namespace =
      if spec.type == "ssh"
      then required "ssh" spec.ssh (λ s. ssh_from_spec s namespace)
      else if spec.type == "winrm"
      then required "winrm" spec.winrm (λ s. winrm_from_spec s namespace)
      else if spec.type == "idrac8"
      then required "idrac8" spec.idrac8 (λ s. idrac8_from_spec s namespace)
      else raise (unknown_type spec.type)
