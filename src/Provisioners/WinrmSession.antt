-- ===== src/Provisioners/WinrmSession.antt =====
-- src/cert_publisher/provisioners/winrm.py, class WinRMProvisioner: its settings, the check of the
-- listener and the session that is pinned to its thumbprint.

use cert_publisher.Prelude.{
  ℕ, String, Bool, true, false, ◌&&◌, Option, none, some, [], ◌∷◌, ◌++◌, ◌==◌, if◌then◌else◌,
}
use cert_publisher.Prelude.Int.{pos}
use cert_publisher.Prelude.Keys.{contains, Dict, get}
use cert_publisher.Prelude.Text.{concat}
use cert_publisher.Resources.{Bytes}
use cert_publisher.Effects.{value_error, runtime_error, Result, ok, raised}
use cert_publisher.Retry.{with_retries, default_retryable}
use cert_publisher.Provisioners.Trace.{Trace, pure, raise, ask, ensure, ◌>>=◌, ◌>>◌}
use cert_publisher.Provisioners.Credentials.{Credentials}
use cert_publisher.Provisioners.Ssh.{truthy, or_default}
use cert_publisher.Provisioners.Unattended.{unattended_host}
use cert_publisher.Provisioners.Powershell.{
  Wsman, Pool, Wire, handshakes, opens, closes, Outside, join,
}

abbrev pub mode_cert_store : String
mode_cert_store = "certStore"

abbrev pub mode_file : String
mode_file = "file"

pub record Winrm : Type 0 where
  pub host : String
  pub port : ℕ
  pub username : String
  pub thumbprint : String
  pub transport : String
  pub credentials : Credentials
  pub mode : String
  pub store_location : String
  pub store_name : String
  pub cert_path : Option String
  pub key_path : Option String
  pub post_install_script : Option String
  pub exportable_private_key : Bool
  pub powershell : String

-- `_TRANSPORT_ALIASES`
abbrev pub transport_aliases : Dict String
transport_aliases = ("ssl", "basic") ∷ ("plaintext", "basic") ∷ []

-- `value.replace(c, "")`, for a text `c` of one character
unfoldable pub without : String → String → String
without c String.[] = String.[]
without c (String.◌∷◌ d s) =
    let rest = without c s in if String.◌∷◌ d String.[] == c then rest else String.◌∷◌ d rest

-- `text.startswith(prefix)`
unfoldable pub starts_with : String → String → Bool
starts_with String.[] s = true
starts_with (String.◌∷◌ c p) String.[] = false
starts_with (String.◌∷◌ c p) (String.◌∷◌ d s) =
    let rest = starts_with p s in String.◌∷◌ c String.[] == String.◌∷◌ d String.[] && rest

module _ ⦃o : Outside⦄ where
  normal_thumbprint : String → String
  unfolding without
  normal_thumbprint thumbprint = o.upper (without " " (without ":" thumbprint))

  aliased : String → String
  aliased transport = or_default (get transport transport_aliases) transport

  -- `_PS_CONFIGURATIONS`
  unfoldable pub ps_configurations : Dict String
  ps_configurations = ("5.1", o.default_configuration_name) ∷ ("7", "PowerShell.7") ∷ []

  check_runtime : Winrm → Result Winrm
  unfolding ps_configurations
  check_runtime h = elim (get h.powershell ps_configurations) [
    | some configuration ↦ ok h
    | none ↦ raised (record {
      kind = value_error;
      text = concat (
          "unsupported powershell runtime: "
          ∷ o.repr h.powershell
          ∷ " (expected '5.1' or '7')"
          ∷ []);
    })
  ]

  -- `__init__`, on the arguments as they come.
  unfoldable pub create : Winrm → Result Winrm
  unfolding normal_thumbprint aliased check_runtime
  create h =
      if contains (aliased h.transport) o.supported_auths
      then check_runtime (record h {
        thumbprint = normal_thumbprint h.thumbprint;
        transport = aliased h.transport;
      })
      else raised (record {
        kind = value_error;
        text = concat (
            "unsupported winrm transport: "
            ∷ o.repr (aliased h.transport)
            ∷ " (expected one of "
            ∷ join ", " (o.sorted_set (o.supported_auths ++ "ssl" ∷ "plaintext" ∷ []))
            ∷ ")"
            ∷ []);
      })

  unfoldable pub matched : Winrm → Bytes → Trace Wire (Unit {0})
  matched h der =
      if o.upper (o.sha1_hex der) == h.thumbprint
      then pure tt
      else raise (record {
        kind = runtime_error;
        text = concat (
            "WinRM endpoint thumbprint mismatch for "
            ∷ h.host
            ∷ ": expected "
            ∷ h.thumbprint
            ∷ ", got "
            ∷ o.upper (o.sha1_hex der)
            ∷ []);
      })

  unfoldable pub verify_endpoint : Winrm → Trace Wire (Unit {0})
  unfolding matched
  verify_endpoint h = do
    der ←
        ask
          (λ t.
            (with_retries (o.peer_cert t) default_retryable o.str
              (concat ("WinRM endpoint check for " ∷ h.host ∷ ":" ∷ o.str h.port ∷ [])) o.retry_base
              (pos o.retry_attempts)).outcome)
          handshakes
    matched h der

  -- `_pin_transport`, on the client that `_wsman` builds: the pin is on the session from its start.
  unfoldable pub pin_transport : Winrm → String → Trace Wire Wsman
  pin_transport h password t =
      if o.has_session t
      then raise
          (record {
            kind = runtime_error;
            text =
                "the WSMan transport already holds a request session, so a request may have gone out before the thumbprint pin was mounted; refusing to continue";
          })
          t
      else pure
          (record {
            host = h.host;
            port = h.port;
            username = h.username;
            password = password;
            auth = h.transport;
            pin = h.thumbprint;
          })
          t

  unfoldable pub wsman_by : Winrm → Option String → Trace Wire Wsman
  unfolding pin_transport
  wsman_by h none =
      raise (record { kind = value_error; text = "winrm provisioner requires a password" })
  wsman_by h (some password) = pin_transport h password

  -- `_wsman`
  unfoldable pub wsman : Winrm → Trace Wire Wsman
  unfolding wsman_by
  wsman h = wsman_by h (truthy h.credentials.password)

  -- `with RunspacePool(…) as pool`
  unfoldable pub with_pool : {A : Type 0} → Pool → (Pool → Trace Wire A) → Trace Wire A
  with_pool pool body = do
    ask (λ t. o.open_pool t pool) (opens pool)
    ensure (ask (λ t. o.close_pool t pool) (closes pool)) (body pool)

  -- A pool of the default configuration.
  unfoldable pub default_pool : Wsman → Pool
  default_pool c = record { wsman = c; configuration_name = none; host = unattended_host }
