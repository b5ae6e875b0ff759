-- ===== src/Certmanager/Requests.antt =====
-- The bodies and the states of CertificateRequests.
use cert_publisher.Prelude.{String, ◌≡◌, arith}
use cert_publisher.Resources.{Bytes, Publication}
use cert_publisher.Effects.{ok, World, Body}
use cert_publisher.Utils.{and_then-eq-ok}
use cert_publisher.Certmanager.{csr_usages, build_certificate_request_body}

module _ ⦃w : World⦄ where
  -- The request that is built has the name that it is asked to have.
  pub build_certificate_request_body-name :
      (p : Publication) (name : String) (csr_pem : Bytes) (body : Body)
      → build_certificate_request_body p name csr_pem ≡ ok body
      → body.name ≡ name
  unfolding build_certificate_request_body
  build_certificate_request_body-name p name csr_pem body h =
      let (usages, e, f) = and_then-eq-ok (csr_usages csr_pem) _ h in ground (arith, f)
