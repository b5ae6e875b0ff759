-- ===== src/Certmanager.antt =====
-- src/cert_publisher/certmanager.py: the objects that are built for cert-manager, the comparison of
-- a Certificate with its publication, and the state of a CertificateRequest.
pub mod Requests
pub mod Drift
mod Examples
use cert_publisher.Prelude.{
  ℕ, String, Bool, true, false, ◌&&◌, ◌||◌, Option, none, some, List, [], ◌∷◌, ◌++◌, ◌==◌,
  if◌then◌else◌,
}
use cert_publisher.Prelude.Text.{concat}
use cert_publisher.Json.{
  Json, text, boolean, array, object, Items, nil, cons, Fields, end, field, get_field, json_eq,
}
use cert_publisher.Resources.{
  Bytes, Publication, ManagedCertificate, RequestCondition, CertificateRequest, KeyUsage, Csr,
}
use cert_publisher.Effects.{value_error, Exception, Result, ok, raised, OwnerReference, Body, World}
use cert_publisher.Utils.{and_then}
use cert_publisher.Kube.{publication_kind, group, version, cm_group, cm_version}

slash : String → String → String
slash a b = concat (a ∷ "/" ∷ b ∷ [])

unfoldable pub owner_reference : Publication → OwnerReference
unfolding slash
owner_reference p = record {
  api_version = slash group version;
  kind = publication_kind;
  name = p.name;
  uid = p.uid;
  controller = true;
  block_owner_deletion = true;
}

texts : List String → Items
texts [] = nil
texts (s ∷ ss) = cons (text s) (texts ss)

-- `if key in spec: cert_spec[key] = spec[key]`, in front of the fields that follow.
optional_text : String → Option String → Fields → Fields
optional_text key none fs = fs
optional_text key (some s) fs = field key (text s) fs

optional_texts : String → Option (List String) → Fields → Fields
unfolding texts
optional_texts key none fs = fs
optional_texts key (some ss) fs = field key (array (texts ss)) fs

optional_json : String → Option Json → Fields → Fields
optional_json key none fs = fs
optional_json key (some v) fs = field key v fs

pub build_certificate_spec : Publication → String → Fields
unfolding texts optional_text optional_texts optional_json
build_certificate_spec p secret_name = field "secretName" (text secret_name) (
    field "dnsNames" (array (texts p.spec.dns_names)) (
      field "issuerRef" p.spec.issuer_ref (
        optional_text "commonName" p.spec.common_name (
          optional_text "duration" p.spec.duration (
            optional_text "renewBefore" p.spec.renew_before (
              optional_texts "usages" p.spec.usages
                (optional_json "privateKey" p.spec.private_key end)))))))

pub build_certificate_body : Publication → String → Body
unfolding slash
build_certificate_body p secret_name = record {
  api_version = slash cm_group cm_version;
  kind = "Certificate";
  name = p.name;
  namespace = p.namespace;
  owner = owner_reference p;
  spec = build_certificate_spec p secret_name;
}

-- `current.get(key) == value`
matches : Option Json → Json → Bool
matches none v = false
matches (some u) v = json_eq u v

-- `all(current.get(key) == value for key, value in desired.items())`
pub all_match : Fields → Fields → Bool
unfolding matches
all_match current end = true
all_match current (field k v fs) = matches (get_field k current) v && all_match current fs

pub certificate_spec_drift : ManagedCertificate → Publication → String → Option Fields
certificate_spec_drift existing p secret_name =
    if all_match existing.spec (build_certificate_spec p secret_name)
    then none
    else some (build_certificate_spec p secret_name)

named_if : Bool → String → List String → List String
named_if b name names = if b then name ∷ names else names

-- `_KEY_USAGE_NAMES`, by the attributes that are set.
key_usage_names : Option KeyUsage → List String
unfolding named_if
key_usage_names none = []
key_usage_names (some u) = named_if u.digital_signature "digital signature" (
    named_if u.content_commitment "content commitment" (
      named_if u.key_encipherment "key encipherment" (
        named_if u.data_encipherment "data encipherment" (
          named_if u.key_agreement "key agreement"
            (named_if u.key_cert_sign "cert sign" (named_if u.crl_sign "crl sign" []))))))

-- `_EXT_KEY_USAGE_NAMES.get(oid)`
ext_key_usage_name : String → Option String
ext_key_usage_name oid =
    if oid == "1.3.6.1.5.5.7.3.1"
    then some "server auth"
    else if oid == "1.3.6.1.5.5.7.3.2"
    then some "client auth"
    else if oid == "1.3.6.1.5.5.7.3.3"
    then some "code signing"
    else if oid == "1.3.6.1.5.5.7.3.4"
    then some "email protection"
    else if oid == "1.3.6.1.5.5.7.3.8"
    then some "timestamping"
    else if oid == "1.3.6.1.5.5.7.3.9"
    then some "ocsp signing"
    else if oid == "2.5.29.37.0"
    then some "any"
    else none

cons_some : Option String → List String → List String
cons_some none names = names
cons_some (some n) names = n ∷ names

ext_names : List String → List String
unfolding ext_key_usage_name cons_some
ext_names [] = []
ext_names (oid ∷ oids) = cons_some (ext_key_usage_name oid) (ext_names oids)

or_nothing : Option (List String) → List String
or_nothing none = []
or_nothing (some xs) = xs

pub usages_of : Csr → List String
unfolding key_usage_names ext_names or_nothing
usages_of csr = key_usage_names csr.key_usage ++ ext_names (or_nothing csr.extended_key_usage)

usages_field : List String → Fields → Fields
usages_field [] fs = fs
usages_field (u ∷ us) fs = field "usages" (array (texts (u ∷ us))) fs

module _ ⦃w : World⦄ where
  pub csr_usages : Bytes → Result (List String)
  csr_usages csr_pem = and_then (w.load_csr csr_pem) (λ csr. ok (usages_of csr))

  request_body : Publication → String → Bytes → List String → Body
  unfolding usages_field optional_text slash
  request_body p name csr_pem usages = record {
    api_version = slash cm_group cm_version;
    kind = "CertificateRequest";
    name = name;
    namespace = p.namespace;
    owner = owner_reference p;
    spec = field "request" (text (w.b64encode csr_pem)) (
        field "issuerRef" p.spec.issuer_ref (
          field "isCA" (boolean false)
            (usages_field usages (optional_text "duration" p.spec.duration end))));
  }

  pub build_certificate_request_body : Publication → String → Bytes → Result Body
  unfolding csr_usages request_body
  build_certificate_request_body p name csr_pem =
      and_then (csr_usages csr_pem) (λ usages. ok (request_body p name csr_pem usages))

  pub issued_certificate : CertificateRequest → Result Bytes
  issued_certificate request = elim request.certificate [
    | none ↦ raised (record {
      kind = value_error;
      text = "CertificateRequest is ready but carries no certificate";
    })
    | some encoded ↦
        if encoded == ""
        then raised (record {
          kind = value_error;
          text = "CertificateRequest is ready but carries no certificate";
        })
        else w.b64decode encoded
  ]

pub data RequestState : Type 0 where
  request_ready request_pending request_failed : RequestState

abbrev same_text : Option String → String → Bool
same_text none t = false
same_text (some s) t = s == t

-- The last condition of the type: `{c.get("type"): c for c in conditions}[type]`.
pub by_type : String → List RequestCondition → Option RequestCondition
by_type type [] = none
by_type type (c ∷ cs) = elim (by_type type cs) [
  | some later ↦ some later
  | none ↦ if same_text c.type type then some c else none
]

-- `condition.get("message") or default`
message_or : Option String → String → String
message_or none default = default
message_or (some m) default = if m == "" then default else m

is_true : Option RequestCondition → Bool
is_true none = false
is_true (some c) = same_text c.status "True"

detail_of : String → Option RequestCondition → String
detail_of prefix none = prefix
detail_of prefix (some c) = concat (prefix ∷ ": " ∷ message_or c.message "no detail" ∷ [])

ready_state : Option RequestCondition → RequestState × String
ready_state none = (request_pending, "awaiting cert-manager")
ready_state (some c) =
    if same_text c.status "True"
    then (request_ready, message_or c.message "issued")
    else if same_text c.reason "Failed"
    then (request_failed, concat ("Failed: " ∷ message_or c.message "no detail" ∷ []))
    else (request_pending, message_or c.message "awaiting issuance")

pub certificate_request_state : CertificateRequest → RequestState × String
unfolding is_true detail_of ready_state message_or
certificate_request_state r =
    if is_true (by_type "Denied" r.conditions)
    then (request_failed, detail_of "Denied" (by_type "Denied" r.conditions))
    else if is_true (by_type "InvalidRequest" r.conditions)
    then (request_failed, detail_of "InvalidRequest" (by_type "InvalidRequest" r.conditions))
    else ready_state (by_type "Ready" r.conditions)
