-- ===== src/Provisioners/Dialogue.antt =====
-- What passes between a provisioner and its target host. An action goes over a trail of what was sent
-- and what came back; the outside answers by the trail.
pub mod Keeps
pub mod Ends
pub mod Leads
use cert_publisher.Prelude.{ℕ, suc, ◌+◌, String, Bool, Option, List, [], ◌∷◌}
use cert_publisher.Resources.{Bytes}
use cert_publisher.Effects.{Exception, Result, ok, raised}
use cert_publisher.Provisioners.Xml.{Element}

-- Whom a TLS handshake trusts: a bundle alone, the system's authorities, or anybody.
pub data Trust : Type 0 where
  bundle : String → Trust
  system anybody : Trust

-- How a handshake ends: with the certificate that the peer presented (in DER), if it did, or with the
-- error of its verification.
pub data Greeting : Type 0 where
  presented : Option Bytes → Greeting
  untrusted : Exception → Greeting

-- An HTTP response: its status, and its body if it is XML.
pub record Reply : Type 0 where
  pub status : ℕ
  pub root : Option Element

-- A POST over a session that is pinned to a certificate by its SHA-256.
pub record Post : Type 0 where
  pub pin : String
  pub password : String
  pub what : String
  pub envelope : String
  pub reply : Result Reply

pub data Wire : Type 0 where
  -- A handshake with its retries, and what the caller got.
  handshakes : Trust → Result (Option Bytes) → Wire
  posts : Post → Wire
  sleeps : ℕ → Wire

-- The last entry comes first.
abbrev pub Trail : Type 0
Trail = List Wire

-- What is not this program: the libraries, the clock and the host. `retry_base` and `retry_attempts`
-- are the settings of retry.py.
pub record Outside : Type 0 where
  pub handshake : Trail → Trust → ℕ → Result Greeting
  pub post : Trail → String → String → Result Reply
  -- time.monotonic, by the trail and its number, and uuid.uuid4, by its number
  pub monotonic : Trail → ℕ → ℕ
  pub uuid : ℕ → String
  -- hashlib.sha256(…).hexdigest(), ssl.DER_cert_to_PEM_cert(…).encode(), str.encode and bytes.decode
  pub sha256_hex : Bytes → String
  pub der_to_pem : Bytes → Bytes
  pub encode : String → Bytes
  pub decode : Bytes → Result String
  pub str : ℕ → String
  -- repr(dict)
  pub repr_dict : List (String × String) → String
  pub retry_base : ℕ
  pub retry_attempts : ℕ

-- How long the trail says that the program slept.
unfoldable pub slept : Trail → ℕ
slept [] = 0
slept (sleeps n ∷ t) = n + slept t
slept (posts p ∷ t) = slept t
slept (handshakes trust r ∷ t) = slept t

pub record Line : Type 0 where
  pub trail : Trail
  -- How often the clock and the source of identifiers were read.
  pub readings : ℕ

abbrev pub Talk : Type 0 → Type 0
Talk A = Line → Result A × Line

module _ {A : Type 0} where
  unfoldable pub pure : A → Talk A
  pure a l = (ok a, l)

  unfoldable pub raise : Exception → Talk A
  raise e l = (raised e, l)

  -- A computation that has no effect but an exception.
  unfoldable pub lift : Result A → Talk A
  lift r l = (r, l)

module _ {A B : Type 0} where
  abbrev pub continue : Result A → (A → Talk B) → Talk B
  continue (ok a) f l = f a l
  continue (raised e) f l = (raised e, l)

  infixl 5 ◌>>=◌ ◌>>◌
  unfoldable pub ◌>>=◌ : Talk A → (A → Talk B) → Talk B
  ◌>>=◌ m f l = let (r, l') = m l in continue r f l'

  abbrev pub ◌>>◌ : Talk A → Talk B → Talk B
  m >> n = m >>= λ _. n

unfoldable pub monotonic : ⦃o : Outside⦄ → Talk ℕ
monotonic ⦃o⦄ l = (ok (o.monotonic l.trail l.readings), record l { readings = suc l.readings })

unfoldable pub uuid : ⦃o : Outside⦄ → Talk String
uuid ⦃o⦄ l = (ok (o.uuid l.readings), record l { readings = suc l.readings })

unfoldable pub sleep : ℕ → Talk (Unit {0})
sleep n l = (ok tt, record l { trail = sleeps n ∷ l.trail })
