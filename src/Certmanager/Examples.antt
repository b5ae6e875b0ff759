-- ===== src/Certmanager/Examples.antt =====
-- The drift of a Certificate, on the one that is created for a small publication.
use cert_publisher.Prelude.{◌≡◌, none}
use cert_publisher.Certmanager.{build_certificate_spec, certificate_spec_drift}
use cert_publisher.Certmanager.Drift.{certificate_spec_drift-none}
use cert_publisher.Json.Equality.{IsWellFormed}
use cert_publisher.Samples.{publication}

certificate_spec_drift-none_example :
    certificate_spec_drift
      (record { spec = build_certificate_spec publication "host-tls" })
      publication
      "host-tls"
    ≡ none
unfolding IsWellFormed
certificate_spec_drift-none_example =
    certificate_spec_drift-none (record { spec = build_certificate_spec publication "host-tls" })
      publication "host-tls" tt tt (λ k v e. e)
