-- ===== src/Resources.antt =====
-- The Kubernetes objects that the operator reads and writes, with the fields that it reads: the
-- CertPublication of charts/cert-publisher/templates/crd.yaml, cert-manager's Certificate and
-- CertificateRequest, and Secrets. An absent field is `none`; an absent status has no field.
use cert_publisher.Prelude.{ℕ, String, Option, none, Bool, List, []}
use cert_publisher.Json.{Json, Fields}

-- Contents of files and of Secrets.
abbrev pub Bytes : Type 0
Bytes = List ℕ

pub record Condition : Type 0 where
  pub type : String
  pub status : String
  pub reason : String
  pub message : String
  pub last_transition_time : String
  pub observed_generation : Option ℕ

pub record Status : Type 0 where
  pub phase : Option String
  pub message : Option String
  pub reason : Option String
  pub last_reconcile_time : Option String
  pub observed_generation : Option ℕ
  pub conditions : List Condition
  pub published_fingerprint : Option String
  pub last_published_time : Option String
  pub pending_request_name : Option String
  pub last_signing_time : Option String
  pub next_retry_time : Option String

abbrev pub empty_status : Status
empty_status = record {
  phase = none;
  message = none;
  reason = none;
  last_reconcile_time = none;
  observed_generation = none;
  conditions = [];
  published_fingerprint = none;
  last_published_time = none;
  pending_request_name = none;
  last_signing_time = none;
  next_retry_time = none;
}

pub record Spec : Type 0 where
  pub dns_names : List String
  pub issuer_ref : Json
  pub common_name : Option String
  pub secret_name : Option String
  pub duration : Option String
  pub renew_before : Option String
  pub usages : Option (List String)
  pub private_key : Option Json
  pub provisioner_type : String

pub record Publication : Type 0 where
  pub namespace : String
  pub name : String
  pub uid : String
  pub generation : Option ℕ
  pub spec : Spec
  pub status : Status

-- cert-manager's Certificate: its `spec`.
pub record ManagedCertificate : Type 0 where
  pub spec : Fields

pub record RequestCondition : Type 0 where
  pub type : Option String
  pub status : Option String
  pub reason : Option String
  pub message : Option String

-- cert-manager's CertificateRequest: `.metadata.creationTimestamp`, and of its status the conditions
-- and the certificate in base 64.
pub record CertificateRequest : Type 0 where
  pub creation_timestamp : Option String
  pub conditions : List RequestCondition
  pub certificate : Option String

-- A Secret: its `data` map, if it has one, with the values in base64.
pub record Secret : Type 0 where
  pub contents : Option (List (String × String))

-- What a parsed X.509 certificate says. Times are microseconds since the first instant of the
-- calendar, 0001-01-01.
pub record X509 : Type 0 where
  pub fingerprint : String
  pub dns_names : List String
  pub not_before : ℕ
  pub not_after : ℕ

-- The key usages of a certificate signing request, and the object identifiers of its extended ones;
-- `none` if it lacks the extension.
pub record KeyUsage : Type 0 where
  pub digital_signature : Bool
  pub content_commitment : Bool
  pub key_encipherment : Bool
  pub data_encipherment : Bool
  pub key_agreement : Bool
  pub key_cert_sign : Bool
  pub crl_sign : Bool

pub record Csr : Type 0 where
  pub key_usage : Option KeyUsage
  pub extended_key_usage : Option (List String)

-- A value that a caller may leave out, set, or clear.
pub data Setting : Type 0 where
  unset : Setting
  set_to : Option String → Setting

-- The body of the merge patch that `set_status` sends. `none` at `observed_generation` and
-- `next_retry_time` is a null, which clears the field; at the fingerprint and the two times it is a
-- key that the patch does not carry.
pub record StatusPatch : Type 0 where
  pub phase : String
  pub message : String
  pub reason : String
  pub last_reconcile_time : String
  pub observed_generation : Option ℕ
  pub conditions : List Condition
  pub published_fingerprint : Option String
  pub last_published_time : Option String
  pub pending_request_name : Setting
  pub last_signing_time : Option String
  pub next_retry_time : Option String
