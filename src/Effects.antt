-- ===== src/Effects.antt =====
-- The effects of a reconcile: Python's exceptions, the calls to the API server and to the target
-- host, and what the program takes from libraries. A reconcile is an action on the publication it
-- holds in memory and on the history of its calls; the outside answers each call by the history.
pub mod Hoare
use cert_publisher.Prelude.{
  ℕ, suc, String, Bool, true, false, Option, none, some, List, [], ◌∷◌, if◌then◌else◌,
}
use cert_publisher.Prelude.Int.{ℤ}
use cert_publisher.Json.{Json, Fields}
use cert_publisher.Resources.{
  Bytes, Publication, ManagedCertificate, CertificateRequest, Secret, X509, Csr, StatusPatch,
}

-- The classes of exceptions that the code tells apart. `api_exception` carries the HTTP status.
pub data Kind : Type 0 where
  api_exception : ℕ → Kind
  value_error lookup_error runtime_error os_error ssh_exception other_error : Kind

pub record Exception : Type 0 where
  pub kind : Kind
  pub text : String

pub data Result {ℓ} (A : Type ℓ) : Type ℓ where
  ok : A → Result A
  raised : Exception → Result A

-- The bodies that the program builds for cert-manager, with the owner reference's parts.
pub record OwnerReference : Type 0 where
  pub api_version : String
  pub kind : String
  pub name : String
  pub uid : String
  pub controller : Bool
  pub block_owner_deletion : Bool

pub record Body : Type 0 where
  pub api_version : String
  pub kind : String
  pub name : String
  pub namespace : String
  pub owner : OwnerReference
  pub spec : Fields

-- What `record_event` posts, as far as the publication and the outcome decide it.
pub record KubeEvent : Type 0 where
  pub type : String
  pub reason : String
  pub message : String

pub data Call : Type 0 where
  reads_publication : String → String → Call
  reads_certificate : String → String → Call
  creates_certificate : String → Body → Call
  patches_certificate : String → String → Fields → Call
  reads_request : String → String → Call
  creates_request : String → Body → Call
  deletes_request : String → String → Call
  patches_status : String → String → StatusPatch → Call
  reads_secret : String → String → Call
  posts_event : String → KubeEvent → Call
  builds_provisioner : Call
  checks_current : Bytes → Call
  installs : Bytes → Bytes → Call
  reads_installed : Call
  generates_csr : String → List String → Call
  imports : Bytes → Call

-- A call, and whether it returned.
pub record Event : Type 0 where
  pub call : Call
  pub succeeded : Bool

-- The last call comes first.
abbrev pub History : Type 0
History = List Event

-- What is not this program: the libraries (`cryptography`, `hashlib`, `base64`, the formats of
-- `datetime`), the clock, the API server and the provisioner that drives the target host. An answer
-- may depend on all the calls that came before it.
pub record World : Type 0 where
  -- x509.load_pem_x509_certificate, x509.load_pem_x509_csr
  pub load_pem : Bytes → Result X509
  pub load_csr : Bytes → Result Csr
  -- hashlib.sha256(…).hexdigest()
  pub sha256_hex : Bytes → String
  -- base64.b64decode and b64encode
  pub b64decode : String → Result Bytes
  pub b64encode : Bytes → String
  -- datetime.strftime and strptime with the layout of utils.py
  pub strftime : ℕ → String
  pub strptime : String → Result ℕ
  -- str(timedelta), and `round` of its seconds
  pub str_timedelta : ℤ → String
  pub round_seconds : ℤ → ℤ
  -- repr(str)
  pub repr : String → String
  -- The clock at each reading, in microseconds.
  pub clock : ℕ → ℕ
  pub read_publication : History → String → String → Result Publication
  pub read_certificate : History → String → String → Result ManagedCertificate
  pub create_certificate : History → String → Body → Result (Unit {0})
  pub patch_certificate : History → String → String → Fields → Result (Unit {0})
  pub read_request : History → String → String → Result CertificateRequest
  pub create_request : History → String → Body → Result (Unit {0})
  pub delete_request : History → String → String → Result (Unit {0})
  pub patch_status : History → String → String → StatusPatch → Result (Unit {0})
  pub read_secret : History → String → String → Result Secret
  pub post_event : History → String → KubeEvent → Result (Unit {0})
  -- provisioners.build_provisioner on the publication's spec.
  pub build_provisioner : History → Publication → Result (Unit {0})
  -- The answer, and the provisioner's `pending_warning`.
  pub is_current : History → Bytes → Result (Bool × Option String)
  pub install : History → Bytes → Bytes → Result (Unit {0})
  pub installed_certificate : History → Result (Option Bytes)
  pub generate_csr : History → String → List String → Result Bytes
  pub import_certificate : History → Bytes → Result (Unit {0})

pub record State : Type 0 where
  -- The dict `pub`: `set_status` changes its status.
  pub publication : Publication
  pub history : History
  -- How often the clock was read.
  pub readings : ℕ

abbrev pub Action : Type 0 → Type 0
Action A = State → Result A × State

module _ {A : Type 0} where
  unfoldable pub pure : A → Action A
  pure a s = (ok a, s)

  unfoldable pub raise : Exception → Action A
  raise e s = (raised e, s)

  -- A computation that has no effect but an exception.
  unfoldable pub lift : Result A → Action A
  lift r s = (r, s)

  abbrev pub returned : Result A → Bool
  returned (ok a) = true
  returned (raised e) = false

  -- One call of the outside.
  unfoldable pub perform : Call → (History → Result A) → Action A
  perform c answer s =
      let r = answer s.history in
      (r, record s { history = record { call = c; succeeded = returned r } ∷ s.history })

unfoldable pub get_publication : Action Publication
get_publication s = (ok s.publication, s)

unfoldable pub now_utc : ⦃w : World⦄ → Action ℕ
now_utc ⦃w⦄ s = (ok (w.clock s.readings), record s { readings = suc s.readings })

module _ {A B : Type 0} where
  abbrev pub continue : Result A → (A → Action B) → Action B
  continue (ok a) f s = f a s
  continue (raised e) f s = (raised e, s)

  infixl 5 ◌>>=◌ ◌>>◌
  unfoldable pub ◌>>=◌ : Action A → (A → Action B) → Action B
  ◌>>=◌ m f s = let (r, s') = m s in continue r f s'

  abbrev pub ◌>>◌ : Action A → Action B → Action B
  m >> n = m >>= λ _. n

abbrev pub is_value_error : Kind → Bool
is_value_error value_error = true
is_value_error _ = false

-- `try: m`, `except Exception as e: handler e`, and the same for `except ValueError`
module _ {A : Type 0} where
  abbrev pub recover : Result A → (Exception → Action A) → Action A
  recover (ok a) h s = (ok a, s)
  recover (raised e) h s = h e s

  unfoldable pub try_except : Action A → (Exception → Action A) → Action A
  try_except m h s = let (r, s') = m s in recover r h s'

  abbrev pub recover_value_error : Result A → Action A → Action A
  recover_value_error (ok a) h s = (ok a, s)
  recover_value_error (raised e) h s = if is_value_error e.kind then h s else (raised e, s)

  unfoldable pub except_value_error : Action A → Action A → Action A
  except_value_error m h s = let (r, s') = m s in recover_value_error r h s'
