-- ===== src/Provisioners/Powershell.antt =====
-- src/cert_publisher/provisioners/winrm.py, lines 194 to 236 and 537 to 539: bundled scripts that run in a
-- runspace pool of the host. pypsrp and the host are the outside.

use cert_publisher.Prelude.{ℕ, String, Bool, not, ◌&&◌, Option, List, [], ◌∷◌, ◌==◌, if◌then◌else◌}
use cert_publisher.Prelude.Text.{concat}
use cert_publisher.Resources.{Bytes, X509}
use cert_publisher.Effects.{runtime_error, Result}
use cert_publisher.Provisioners.Xml.{strip}
use cert_publisher.Provisioners.Unattended.{PsHost}
use cert_publisher.Provisioners.Trace.{Trace, pure, raise, ask, ◌>>=◌, ◌>>◌}

-- The scripts under provisioners/scripts/.
pub data Script : Type 0 where
  probe_cert_store read_file_b64 install_cert_store write_file run_post_install : Script

unfoldable pub script_name : Script → String
script_name probe_cert_store = "probe-cert-store.ps1"
script_name read_file_b64 = "read-file-b64.ps1"
script_name install_cert_store = "install-cert-store.ps1"
script_name write_file = "write-file.ps1"
script_name run_post_install = "run-post-install.ps1"

-- A value that is bound to a parameter of a script.
pub data Value : Type 0 where
  text : String → Value
  bytes : Bytes → Value
  flag : Bool → Value
  null : Value

-- A WSMan client with a session that accepts one certificate, by its thumbprint.
pub record Wsman : Type 0 where
  pub host : String
  pub port : ℕ
  pub username : String
  pub password : String
  pub auth : String
  pub pin : String

-- A runspace pool, with its session configuration where it is not the default.
pub record Pool : Type 0 where
  pub wsman : Wsman
  pub configuration_name : Option String
  pub host : PsHost

pub record Invocation : Type 0 where
  pub pool : Pool
  pub script : Script
  pub parameters : List (String × Value)
  -- Bound as SecureString.
  pub secure_parameters : List (String × String)

-- A pipeline that was run: its error records and its output objects by their `str`.
pub record Pipeline : Type 0 where
  pub had_errors : Bool
  pub errors : List String
  pub output : List String

pub data Wire : Type 0 where
  -- The check of the endpoint, with its retries: the certificate in DER.
  handshakes : Result Bytes → Wire
  opens : Pool → Result (Unit {0}) → Wire
  exchanges_keys : Pool → Result (Unit {0}) → Wire
  invokes : Invocation → Result Pipeline → Wire
  closes : Pool → Result (Unit {0}) → Wire
  -- The end of the WSMan client.
  leaves : Wire

pub record Outside : Type 0 where
  -- tls.getpeercert(binary_form=True), by the number of the connection
  pub peer_cert : List Wire → ℕ → Result Bytes
  -- hashlib.sha1(…).hexdigest(), and the SHA-1 of a parsed certificate in upper-case digits
  pub sha1_hex : Bytes → String
  pub sha1_of : X509 → String
  pub upper : String → String
  -- Whether the transport of a new WSMan holds a session already.
  pub has_session : List Wire → Bool
  pub open_pool : List Wire → Pool → Result (Unit {0})
  pub exchange_keys : List Wire → Pool → Result (Unit {0})
  pub invoke : List Wire → Invocation → Result Pipeline
  pub close_pool : List Wire → Pool → Result (Unit {0})
  -- load_pem_x509_certificates, load_pem_private_key, secrets.token_urlsafe(24) and
  -- pkcs12.serialize_key_and_certificates on the key, the certificate, the others and the password
  pub load_certificates : Bytes → Result (List Bytes)
  pub load_private_key : Bytes → Result Bytes
  pub token_urlsafe : List Wire → String
  pub serialize : Bytes → Bytes → Option (List Bytes) → String → Result Bytes
  pub supported_auths : List String
  pub default_configuration_name : String
  -- sorted(set(…))
  pub sorted_set : List String → List String
  pub repr : String → String
  pub str : ℕ → String
  pub retry_base : ℕ
  pub retry_attempts : ℕ

-- `separator.join(parts)`
unfoldable pub join : String → List String → String
join separator [] = ""
join separator (p ∷ []) = p
join separator (p ∷ q ∷ ps) = concat (p ∷ separator ∷ join separator (q ∷ ps) ∷ [])

-- The loop of `_error_text`.
parts : List String → List String
parts [] = []
parts (r ∷ rs) =
    let rest = parts rs in
    if not (strip r == "") && not (strip r == "None") then strip r ∷ rest else rest

or_text : String → String → String
or_text default s = if s == "" then default else s

unfoldable pub error_text : Pipeline → String
unfolding parts or_text
error_text p = or_text "no error detail returned by the host" (join "; " (parts p.errors))

module _ ⦃o : Outside⦄ where
  unfoldable pub exchange : Pool → List (String × String) → Trace Wire (Unit {0})
  exchange pool [] = pure tt
  exchange pool (_ ∷ _) = ask (λ t. o.exchange_keys t pool) (exchanges_keys pool)

  unfoldable pub output_of : Invocation → Pipeline → Trace Wire (List String)
  output_of i p =
      if p.had_errors
      then raise (record {
        kind = runtime_error;
        text = concat (script_name i.script ∷ " failed on the remote host: " ∷ error_text p ∷ []);
      })
      else pure p.output

  -- `_invoke`. Errors that did not end the pipeline are only logged.
  unfoldable pub invoke : Invocation → Trace Wire (List String)
  unfolding exchange output_of
  invoke i = do
    exchange i.pool i.secure_parameters
    p ← ask (λ t. o.invoke t i) (invokes i)
    output_of i p

-- `_first_line`
unfoldable pub first_line : List String → String
first_line [] = ""
first_line (s ∷ _) = strip s
