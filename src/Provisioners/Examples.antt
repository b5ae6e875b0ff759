-- ===== src/Provisioners/Examples.antt =====
-- The properties of the provisioners, on one host.
use cert_publisher.Prelude.{◌≢◌, arith, true, none, some, [], ◌∷◌}
use cert_publisher.Effects.{ok}
use cert_publisher.Provisioners.Xml.{Element, element, nil, cons}
use cert_publisher.Provisioners.Dialogue.{Outside, Line, presented, slept}
use cert_publisher.Provisioners.Idrac8.{
  Idrac8, generate_csr, import_certificate, installed_certificate, comma_joined,
}
use cert_publisher.Provisioners.Idrac8.Pinning.{IsPinned, requests-IsPinned}
use cert_publisher.Provisioners.Idrac8.Patience.{IsClock, slept-append, generate_csr-ends}
use cert_publisher.Provisioners.Idrac8.Subject.{IsConfirmed, generate_csr-IsConfirmed}

-- An answer that shows an attribute, and is the output of a method too.
abbrev body : Element
body =
    element "Body" none
      (cons
        (element "{ns}DCIM_iDRACCardString" none
          (cons (element "{ns}CurrentValue" (some "host.example") nil none) nil) none)
        (cons
          (element "{ns}GenerateSSLCSR_OUTPUT" none
            (cons (element "{ns}ReturnValue" (some "0") nil none)
              (cons (element "{ns}SSLCSRFile" (some "csr") nil none) nil))
            none)
          nil))
      none

abbrev outside : Outside
outside = record {
  handshake = λ t trust n. ok (presented (some []));
  post = λ t url envelope. ok (record { status = 200; root = some body });
  monotonic = λ t n. slept t;
  uuid = λ n. "id";
  sha256_hex = λ b. "f0";
  der_to_pem = λ b. b;
  encode = λ s. [];
  decode = λ b. ok "pem";
  str = λ n. "1";
  repr_dict = λ d. "{}";
  retry_base = 1;
  retry_attempts = 3;
}

abbrev idrac : Idrac8
idrac = record {
  host = "idrac.example";
  port = 443;
  username = "root";
  password = some "secret";
  bootstrap_thumbprint = some "f0";
  ca_bundle = none;
  reset = true;
}

abbrev unused : Line
unused = record { trail = []; readings = 0 }

requests-IsPinned_example :
    IsPinned ⦃o = outside⦄ idrac
      (generate_csr ⦃o = outside⦄ idrac "host.example" ("host.example" ∷ []) 30 unused).1.trail
    × IsPinned ⦃o = outside⦄ idrac (import_certificate ⦃o = outside⦄ idrac [] unused).1.trail
    × IsPinned ⦃o = outside⦄ idrac (installed_certificate ⦃o = outside⦄ idrac unused).1.trail
requests-IsPinned_example =
    requests-IsPinned ⦃o = outside⦄ idrac "host.example" ("host.example" ∷ []) 30 [] unused tt

generate_csr-IsConfirmed_example :
    IsConfirmed ⦃o = outside⦄
      ("host.example", comma_joined ⦃o = outside⦄ ("host.example" ∷ []))
      (generate_csr ⦃o = outside⦄ idrac "host.example" ("host.example" ∷ []) 30 unused).1.trail
generate_csr-IsConfirmed_example =
    generate_csr-IsConfirmed ⦃o = outside⦄ idrac "host.example" ("host.example" ∷ []) 30 unused tt

outside-IsClock : IsClock outside
outside-IsClock = record { advances = λ t later m n h. omega (arith, slept-append later t) }

generate_csr-ends_example :
    (generate_csr ⦃o = outside⦄ idrac "host.example" ("host.example" ∷ []) 31 unused).0 ≢ ok none
generate_csr-ends_example =
    generate_csr-ends ⦃o = outside⦄ idrac "host.example" ("host.example" ∷ []) unused
      outside-IsClock
