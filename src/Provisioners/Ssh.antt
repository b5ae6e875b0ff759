-- ===== src/Provisioners/Ssh.antt =====
-- src/cert_publisher/provisioners/ssh.py: the files go to the host over SFTP, and then a script of the
-- operator runs there. paramiko and the host are the outside.
pub mod Pinning
pub mod Staging
pub mod Sessions
pub mod Published
pub mod Stays
pub mod Sample
mod Examples
use Prim.Native.String
use cert_publisher.Prelude.{
  ℕ, ◌%◌, String, Bool, true, false, not, ◌&&◌, Option, none, some, List, [], ◌∷◌, ◌==◌, nat_eq,
  if◌then◌else◌,
}
use cert_publisher.Prelude.Int.{pos}
use cert_publisher.Prelude.Text.{concat}
use cert_publisher.Resources.{Bytes}
use cert_publisher.Effects.{
  Kind, ssh_exception, value_error, runtime_error, os_error, Exception, Result, ok, raised, World,
}
use cert_publisher.Retry.{with_retries, default_retryable}
use cert_publisher.Utils.{and_then, sha256_fingerprint}
use cert_publisher.Provisioners.Xml.{strip}
use cert_publisher.Provisioners.Trace.{Trace, pure, raise, lift, ask, finally, except, ◌>>=◌, ◌>>◌}
use cert_publisher.Provisioners.Credentials.{Credentials}

-- `_KEY_TYPES`
pub data KeyType : Type 0 where
  ed25519 ecdsa rsa : KeyType

-- How the client logs in: with a key that was loaded (`PKey.asbytes`) or with a password.
pub data Login : Type 0 where
  with_key : Bytes → Login
  with_password : String → Login

-- Whether the client goes on with a host that shows this key.
abbrev pub Policy : Type 0
Policy = Bytes → Result (Unit {0})

pub data Wire : Type 0 where
  -- A connection with its retries, the policy that it asks about the host's key, and what the caller
  -- got.
  connects : Policy → Login → Result (Unit {0}) → Wire
  opens_sftp : Result (Unit {0}) → Wire
  reads : String → Result Bytes → Wire
  writes : String → Bytes → Result (Unit {0}) → Wire
  chmods : String → ℕ → Result (Unit {0}) → Wire
  closes_sftp : Wire
  -- A command with its exit status, and what it wrote to its standard error.
  runs : String → Result ℕ → Wire
  reads_stderr : Result String → Wire
  closes : Wire

pub record Outside : Type 0 where
  -- key_type.from_private_key
  pub from_private_key : KeyType → String → Option String → Result Bytes
  -- hashlib.sha256(…).digest()
  pub sha256 : Bytes → Bytes
  -- SSHClient.connect, by its number
  pub connect : List Wire → Policy → Login → ℕ → Result (Unit {0})
  pub open_sftp : List Wire → Result (Unit {0})
  pub read : List Wire → String → Result Bytes
  pub write : List Wire → String → Bytes → Result (Unit {0})
  pub chmod : List Wire → String → ℕ → Result (Unit {0})
  pub exec_command : List Wire → String → Result ℕ
  pub stderr : List Wire → Result String
  pub str : ℕ → String
  pub retry_base : ℕ
  pub retry_attempts : ℕ

pub record Ssh : Type 0 where
  pub host : String
  pub port : ℕ
  pub username : String
  pub host_fingerprint : String
  pub credentials : Credentials
  pub cert_path : String
  pub key_path : String
  pub cert_mode : ℕ
  pub key_mode : ℕ
  pub post_install_script : Option String

-- A text that is not empty, for `if text`.
unfoldable pub truthy : Option String → Option String
truthy none = none
truthy (some s) = if s == "" then none else some s

-- `spec.get(key, default)`
unfoldable pub or_default : {A : Type 0} → Option A → A → A
or_default none default = default
or_default (some a) default = a

-- `text.rstrip("=")`
pub rstrip_padding : String → String
rstrip_padding String.[] = String.[]
rstrip_padding (String.◌∷◌ c s) =
    let rest = rstrip_padding s in
    if String.◌∷◌ c String.[] == "=" && rest == "" then String.[] else String.◌∷◌ c rest

abbrev pub is_ssh_exception : Kind → Bool
is_ssh_exception ssh_exception = true
is_ssh_exception _ = false

abbrev pub is_os_error : Kind → Bool
is_os_error os_error = true
is_os_error _ = false

abbrev pub is_value_error : Kind → Bool
is_value_error value_error = true
is_value_error _ = false

module _ ⦃w : World⦄ ⦃o : Outside⦄ where
  -- The loop of `_load_private_key`, with the last error.
  load_from : List KeyType → String → Option String → String → Result Bytes
  load_from [] pem passphrase last_error = raised (record {
    kind = ssh_exception;
    text = concat ("unsupported or malformed SSH private key: " ∷ last_error ∷ []);
  })
  load_from (t ∷ types) pem passphrase last_error = elim (o.from_private_key t pem passphrase) [
    | ok key ↦ ok key
    | raised e ↦ if is_ssh_exception e.kind then load_from types pem passphrase e.text else raised e
  ]

  pub load_private_key : String → Option String → Result Bytes
  unfolding load_from
  load_private_key pem passphrase = load_from (ed25519 ∷ ecdsa ∷ rsa ∷ []) pem passphrase "None"

  -- The fingerprint as OpenSSH prints it.
  pub fingerprint : Bytes → String
  fingerprint key = concat ("SHA256:" ∷ rstrip_padding (w.b64encode (o.sha256 key)) ∷ [])

  -- `_FingerprintPolicy(expected).missing_host_key(client, hostname, key)`
  pub missing_host_key : String → String → Policy
  unfolding fingerprint
  missing_host_key expected hostname key =
      if fingerprint key == strip expected
      then ok tt
      else raised (record {
        kind = ssh_exception;
        text = concat (
            "host key fingerprint mismatch for "
            ∷ hostname
            ∷ ": expected "
            ∷ strip expected
            ∷ ", got "
            ∷ fingerprint key
            ∷ []);
      })

  keyed : String → Option String → Result Login
  unfolding and_then
  keyed pem passphrase = and_then (load_private_key pem passphrase) (λ key. ok (with_key key))

  -- How `_connect` logs in: a private key goes before a password.
  pub login_of : Credentials → Result Login
  unfolding keyed truthy
  login_of c = elim (truthy c.private_key) [
    | some pem ↦ keyed pem c.passphrase
    | none ↦ elim (truthy c.password) [
      | some password ↦ ok (with_password password)
      | none ↦ raised (record {
        kind = value_error;
        text = "ssh provisioner requires a password or privateKey";
      })
    ]
  ]

  connect_with : Ssh → Login → Trace Wire (Unit {0})
  connect_with h login =
      ask
        (λ t.
          (with_retries (o.connect t (missing_host_key h.host_fingerprint h.host) login)
            default_retryable o.str
            (concat ("SSH connection to " ∷ h.host ∷ ":" ∷ o.str h.port ∷ [])) o.retry_base
            (pos o.retry_attempts)).outcome)
        (connects (missing_host_key h.host_fingerprint h.host) login)

  pub connect : Ssh → Trace Wire (Unit {0})
  unfolding connect_with
  connect h = do login ← lift (login_of h.credentials); connect_with h login

  -- The certificate file, or `none` where it cannot be opened or read.
  read_cert : Ssh → Trace Wire (Option Bytes)
  read_cert h =
      except is_os_error (pure none)
        (do data_ ← ask (λ t. o.read t h.cert_path) (reads h.cert_path); pure (some data_))

  existing_cert : Ssh → Trace Wire (Option Bytes)
  unfolding read_cert
  existing_cert h = do ask o.open_sftp opens_sftp; finally closes_sftp (read_cert h)

  compared : String → Result String → Result Bool
  compared desired (ok f) = ok (f == desired)
  compared desired (raised e) = if is_value_error e.kind then ok false else raised e

  -- The end of `is_current`.
  same_cert : String → Option Bytes → Result Bool
  unfolding compared
  same_cert desired none = ok false
  same_cert desired (some existing) = compared desired (sha256_fingerprint existing)

  unfoldable pub is_current : Ssh → Bytes → Trace Wire Bool
  unfolding existing_cert same_cert
  is_current h cert_pem = do
    desired ← lift (sha256_fingerprint cert_pem)
    connect h
    existing ← finally closes (existing_cert h)
    lift (same_cert desired existing)

  -- `_put`, with `stat.S_IMODE`
  put : String → Bytes → ℕ → Trace Wire (Unit {0})
  put path contents mode = do
    ask (λ t. o.write t path contents) (writes path contents)
    ask (λ t. o.chmod t path (mode % 4096)) (chmods path (mode % 4096))

  put_files : Ssh → Bytes → Bytes → Trace Wire (Unit {0})
  unfolding put
  put_files h cert_pem key_pem = do
    put h.cert_path cert_pem h.cert_mode
    put h.key_path key_pem h.key_mode

  check_status : ℕ → Trace Wire (Unit {0})
  check_status rc = if nat_eq rc 0 then pure tt else (do
    err ← ask o.stderr reads_stderr
    raise (record {
      kind = runtime_error;
      text = concat ("post-install script exited " ∷ o.str rc ∷ ": " ∷ err ∷ []);
    }))

  run_script : Option String → Trace Wire (Unit {0})
  unfolding check_status
  run_script none = pure tt
  run_script (some script) = do
    rc ← ask (λ t. o.exec_command t script) (runs script)
    check_status rc

  -- What `install` does on its connection.
  deliver : Ssh → Bytes → Bytes → Trace Wire (Unit {0})
  unfolding put_files run_script
  deliver h cert_pem key_pem = do
    ask o.open_sftp opens_sftp
    finally closes_sftp (put_files h cert_pem key_pem)
    run_script (truthy h.post_install_script)

  unfoldable pub install : Ssh → Bytes → Bytes → Trace Wire (Unit {0})
  unfolding deliver
  install h cert_pem key_pem = do connect h; finally closes (deliver h cert_pem key_pem)
