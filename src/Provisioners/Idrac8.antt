-- ===== src/Provisioners/Idrac8.antt =====
-- src/cert_publisher/provisioners/idrac8.py, class IDRAC8Provisioner: the trust in the endpoint, the
-- CSR and the import. Times are seconds of the monotonic clock.
pub mod Keeps
pub mod Pinning
pub mod Subject
pub mod Patience
use Prim.Native.String
use cert_publisher.Prelude.{
  ℕ, zero, suc, ◌+◌, String, Bool, true, false, not, ◌&&◌, Option, none, some, List, [], ◌∷◌, ◌++◌,
  ◌==◌, ◌||◌, nat_eq, leb, if◌then◌else◌,
}
use cert_publisher.Prelude.Keys.{Dict, get}
use cert_publisher.Prelude.Int.{pos}
use cert_publisher.Prelude.Text.{concat}
use cert_publisher.Resources.{Bytes}
use cert_publisher.Effects.{runtime_error, value_error, Exception, Result, ok, raised}
use cert_publisher.Retry.{with_retries, default_retryable}
use cert_publisher.Provisioners.Xml.{strip}
use cert_publisher.Provisioners.Dialogue.{
  Trust, bundle, system, anybody, Greeting, presented, untrusted, handshakes, Outside, Line, Talk,
  pure, raise, lift, monotonic, sleep, ◌>>=◌, ◌>>◌,
}
use cert_publisher.Provisioners.Wsman.{WsmanClient, card_service, read, invoke}

pub record Idrac8 : Type 0 where
  pub host : String
  pub port : ℕ
  pub username : String
  pub password : Option String
  pub bootstrap_thumbprint : Option String
  pub ca_bundle : Option String
  pub reset : Bool

abbrev pub common_name_attribute : String
common_name_attribute = "Security.1#CsrCommonName"

abbrev pub alt_name_attribute : String
alt_name_attribute = "Security.1#CsrSubjectAltName"

abbrev pub attribute_class : String
attribute_class = "DCIM_iDRACCardString"

abbrev pub target : String
target = "iDRAC.Embedded.1"

abbrev pub apply_timeout : ℕ
apply_timeout = 90

abbrev pub apply_poll_interval : ℕ
apply_poll_interval = 3

-- `if not text`
abbrev pub is_unset : Option String → Bool
is_unset none = true
is_unset (some s) = s == ""

-- The context of the handshake: the operator's bundle excludes all else.
pub trust_of : Idrac8 → Bool → Trust
trust_of h false = anybody
trust_of h true = elim h.ca_bundle [ none ↦ system | some b ↦ if b == "" then system else bundle b ]

-- `attempt` of `_peer_der`: an endpoint that is not trusted yet is no error, if trust was asked for.
pub greet : Bool → Result Greeting → Result (Option Bytes)
greet verify (raised e) = raised e
greet verify (ok (presented der)) = ok der
greet true (ok (untrusted e)) = ok none
greet false (ok (untrusted e)) = raised e

is_blank : ℕ → Bool
is_blank c = nat_eq c 32 || (leb 9 c && leb c 13)

drop_blanks : Bytes → Bytes
unfolding is_blank
drop_blanks [] = []
drop_blanks (c ∷ cs) = let rest = drop_blanks cs in if is_blank c then rest else c ∷ cs

trimmed : ℕ → Bytes → Bytes
unfolding is_blank
trimmed c [] = if is_blank c then [] else c ∷ []
trimmed c (d ∷ ds) = c ∷ d ∷ ds

-- `bytes.rstrip`: a blank is dropped if nothing is left behind it.
trim_end : Bytes → Bytes
unfolding trimmed
trim_end [] = []
trim_end (c ∷ cs) = trimmed c (trim_end cs)

-- `cert_pem.strip()`
strip_bytes : Bytes → Bytes
unfolding drop_blanks trim_end
strip_bytes cs = trim_end (drop_blanks cs)

module _ ⦃o : Outside⦄ where
  -- `_peer_der`
  unfoldable pub peer_der : Idrac8 → Bool → Talk (Option Bytes)
  unfolding greet trust_of
  peer_der h verify l =
      let r =
        (with_retries (λ n. greet verify (o.handshake l.trail (trust_of h verify) n))
          default_retryable o.str
          (concat ("iDRAC endpoint check for " ∷ h.host ∷ ":" ∷ o.str h.port ∷ [])) o.retry_base
          (pos o.retry_attempts)).outcome in
      (r, record l { trail = handshakes (trust_of h verify) r ∷ l.trail })

  -- The end of `_authenticated_peer`: the endpoint against the bootstrap thumbprint.
  pub matched : Idrac8 → String → Option Bytes → Result Bytes
  matched h thumbprint none = raised (record {
    kind = runtime_error;
    text = concat (
        "iDRAC " ∷ h.host
        ∷ " presented no certificate to check against the configured bootstrapThumbprint" ∷ []);
  })
  matched h thumbprint (some der) =
      if o.sha256_hex der == thumbprint
      then ok der
      else raised (record {
        kind = runtime_error;
        text = concat (
            "iDRAC endpoint thumbprint mismatch for "
            ∷ h.host
            ∷ ": expected "
            ∷ thumbprint
            ∷ ", got "
            ∷ o.sha256_hex der
            ∷ []);
      })

  pub bootstrap : Idrac8 → Option String → Talk Bytes
  unfolding matched
  bootstrap h none = raise (record {
    kind = runtime_error;
    text = concat (
        "iDRAC " ∷ h.host
        ∷ " does not present a currently valid certificate (untrusted issuer, hostname mismatch, or expired) and no bootstrapThumbprint is configured, so its identity cannot be established; set bootstrapThumbprint to the SHA-256 of the certificate it is serving today"
        ∷ []);
  })
  bootstrap h (some thumbprint) = do der ← peer_der h false; lift (matched h thumbprint der)

  -- `if not self.bootstrap_thumbprint`
  pub nonempty : Option String → Option String
  nonempty none = none
  nonempty (some t) = if t == "" then none else some t

  pub or_bootstrap : Idrac8 → Option Bytes → Talk Bytes
  unfolding nonempty bootstrap
  or_bootstrap h (some der) = pure der
  or_bootstrap h none = bootstrap h (nonempty h.bootstrap_thumbprint)

  -- `_authenticated_peer`
  unfoldable pub authenticated_peer : Idrac8 → Talk Bytes
  unfolding or_bootstrap
  authenticated_peer h = do der ← peer_der h true; or_bootstrap h der

  -- The session that `_connect` opens with an authenticated host.
  pub client_of : Idrac8 → String → Bytes → WsmanClient
  client_of h password der = record {
    host = h.host;
    url = concat ("https://" ∷ h.host ∷ ":" ∷ o.str h.port ∷ "/wsman" ∷ []);
    timeout = 60;
    username = h.username;
    password = password;
    pin = o.sha256_hex der;
  }

  -- `_connect`
  pub connect_with : Idrac8 → String → Talk WsmanClient
  unfolding client_of
  connect_with h password = do der ← authenticated_peer h; pure (client_of h password der)

  pub connect_or_raise : Idrac8 → Option String → Talk WsmanClient
  unfolding connect_with
  connect_or_raise h none =
      raise (record { kind = value_error; text = "idrac8 provisioner requires a password" })
  connect_or_raise h (some p) =
      if p == ""
      then raise (record { kind = value_error; text = "idrac8 provisioner requires a password" })
      else connect_with h p

  unfoldable pub connect : Idrac8 → Talk WsmanClient
  unfolding connect_or_raise
  connect h = connect_or_raise h h.password

  unfoldable pub installed_certificate : Idrac8 → Talk (Option Bytes)
  installed_certificate h = do der ← authenticated_peer h; pure (some (o.der_to_pem der))

  -- `self._attribute(client, n).get("CurrentValue", "")`
  pub value_or_blank : Option String → String
  value_or_blank none = ""
  value_or_blank (some v) = v

  abbrev pub selectors_for : String → Dict String
  selectors_for name = ("InstanceID", concat (target ∷ "#" ∷ name ∷ [])) ∷ []

  unfoldable pub current_value : WsmanClient → String → Talk String
  unfolding value_or_blank
  current_value c name = do
    fields ← read c attribute_class (selectors_for name)
    pure (value_or_blank (get "CurrentValue" fields))

  -- The subject: the common name and the alternative names.
  unfoldable pub current_subject : WsmanClient → Talk (String × String)
  current_subject c = do
    cn ← current_value c common_name_attribute
    san ← current_value c alt_name_attribute
    pure (cn, san)

  abbrev pub is_subject : String × String → String × String → Bool
  is_subject a b = a.0 == b.0 && a.1 == b.1

  subject_text : String × String → String
  subject_text s = o.repr_dict ((common_name_attribute, s.0) ∷ (alt_name_attribute, s.1) ∷ [])

  pub not_applied : Idrac8 → String × String → String × String → Exception
  unfolding subject_text
  not_applied h desired current = record {
    kind = runtime_error;
    text = concat (
        "iDRAC "
        ∷ h.host
        ∷ " did not apply the CSR subject within "
        ∷ o.str apply_timeout
        ∷ "s (wanted "
        ∷ subject_text desired
        ∷ ", still "
        ∷ subject_text current
        ∷ "). A CSR generated now would carry the previous subject, so none was requested."
        ∷ []);
  }

  -- How a round of the loop goes on, when the subject was read.
  after_subject :
      Idrac8
      → String × String
      → ℕ
      → String × String
      → Talk (Option (Unit {0}))
      → Talk (Option (Unit {0}))
  unfolding not_applied
  after_subject h desired deadline current rest =
      if is_subject current desired then pure (some tt) else (do
        now ← monotonic
        if leb deadline now
            then raise (not_applied h desired current)
            else (do sleep apply_poll_interval; rest))

  -- The loop of `_apply_csr_subject`, on fuel. `none` is what is left of it when the fuel runs out.
  unfoldable pub poll_subject :
      Idrac8 → WsmanClient → String × String → ℕ → ℕ → Talk (Option (Unit {0}))
  unfolding after_subject
  poll_subject h c desired deadline zero = pure none
  poll_subject h c desired deadline (suc fuel) =
      let rest = poll_subject h c desired deadline fuel in
      do current ← current_subject c; after_subject h desired deadline current rest

  -- `_apply_csr_subject`
  unfoldable pub apply_csr_subject :
      Idrac8 → WsmanClient → String × String → ℕ → Talk (Option (Unit {0}))
  apply_csr_subject h c desired fuel = do
    invoke c card_service "SetAttributes" (
        ("Target", target ∷ [])
        ∷ ("AttributeName", common_name_attribute ∷ alt_name_attribute ∷ [])
        ∷ ("AttributeValue", desired.0 ∷ desired.1 ∷ [])
        ∷ [])
    invoke c card_service "CreateTargetedConfigJob"
        (("Target", target ∷ []) ∷ ("ScheduledStartTime", "TIME_NOW" ∷ []) ∷ [])
    now ← monotonic
    poll_subject h c desired (now + apply_timeout) fuel

  -- `",".join(dns_names)`
  pub comma_joined : List String → String
  comma_joined [] = ""
  comma_joined (n ∷ []) = n
  comma_joined (n ∷ m ∷ ns) = concat (n ∷ "," ∷ comma_joined (m ∷ ns) ∷ [])

  -- `if current == desired: … else: self._apply_csr_subject(…)`
  pub ensure_subject :
      Idrac8 → WsmanClient → String × String → ℕ → String × String → Talk (Option (Unit {0}))
  ensure_subject h c desired fuel current =
      if is_subject current desired then pure (some tt) else apply_csr_subject h c desired fuel

  -- What follows the subject: `none` is passed on.
  pub request_csr : Idrac8 → WsmanClient → Option (Unit {0}) → Talk (Option (Dict String))
  request_csr h c none = pure none
  request_csr h c (some u) = do
    output ← invoke c card_service "GenerateSSLCSR" []
    pure (some output)

  csr_text : Option String → String
  csr_text none = ""
  csr_text (some s) = strip s

  -- The CSR in the output.
  pub csr_bytes : Idrac8 → Option (Dict String) → Result (Option Bytes)
  unfolding csr_text
  csr_bytes h none = ok none
  csr_bytes h (some output) =
      if csr_text (get "SSLCSRFile" output) == ""
      then raised (record {
        kind = runtime_error;
        text = concat (
            "iDRAC " ∷ h.host ∷ " reported success generating a CSR but returned no SSLCSRFile"
            ∷ []);
      })
      else ok (some (o.encode (concat (csr_text (get "SSLCSRFile" output) ∷ "\n" ∷ []))))

  -- `generate_csr`, with the fuel of its loop; `none` if that runs out.
  unfoldable pub generate_csr : Idrac8 → String → List String → ℕ → Talk (Option Bytes)
  unfolding comma_joined ensure_subject request_csr csr_bytes
  generate_csr h common_name dns_names fuel = do
    c ← connect h
    current ← current_subject c
    applied ← ensure_subject h c (common_name, comma_joined dns_names) fuel current
    output ← request_csr h c applied
    lift (csr_bytes h output)

  -- The reset behind an import, if it is not disabled.
  pub reset_unless : Idrac8 → WsmanClient → Talk (Unit {0})
  reset_unless h c =
      if not h.reset
      then pure tt
      else (do invoke c card_service "iDRACReset" (("Force", "0" ∷ []) ∷ []); pure tt)

  -- The calls of an import, over the session.
  pub import_over : Idrac8 → String → WsmanClient → Talk (Unit {0})
  unfolding reset_unless
  import_over h payload c = do
    invoke c card_service "ImportSSLCertificate"
        (("SSLCertificateFile", payload ∷ []) ∷ ("CertificateType", "1" ∷ []) ∷ [])
    reset_unless h c

  pub import_payload : Idrac8 → String → Talk (Unit {0})
  unfolding import_over
  import_payload h payload = do c ← connect h; import_over h payload c

  -- `(cert_pem.strip() + b"\n").decode()`
  pub payload_of : Bytes → Result String
  unfolding strip_bytes
  payload_of cert_pem = o.decode (strip_bytes cert_pem ++ 10 ∷ [])

  -- `import_certificate`
  unfoldable pub import_certificate : Idrac8 → Bytes → Talk (Unit {0})
  unfolding payload_of import_payload
  import_certificate h cert_pem = do payload ← lift (payload_of cert_pem); import_payload h payload
