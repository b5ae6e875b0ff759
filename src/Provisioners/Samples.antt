-- ===== src/Provisioners/Samples.antt =====
-- Concrete data for the examples: a Windows host that answers every call.
use cert_publisher.Prelude.{false, [], ◌∷◌}
use cert_publisher.Effects.{ok}
use cert_publisher.Provisioners.Powershell.{Outside}

abbrev pub outside : Outside
outside = record {
  peer_cert = λ t n. ok [];
  sha1_hex = λ b. "A0";
  sha1_of = λ c. "A0";
  upper = λ s. s;
  has_session = λ t. false;
  open_pool = λ t p. ok tt;
  exchange_keys = λ t p. ok tt;
  invoke = λ t i. ok (record { had_errors = false; errors = []; output = "present:sealed" ∷ [] });
  close_pool = λ t p. ok tt;
  load_certificates = λ b. ok ([] ∷ []);
  load_private_key = λ b. ok [];
  token_urlsafe = λ t. "token";
  serialize = λ k c cs p. ok [];
  supported_auths = "ntlm" ∷ [];
  default_configuration_name = "Microsoft.PowerShell";
  sorted_set = λ s. s;
  repr = λ s. s;
  str = λ n. "5986";
  retry_base = 1;
  retry_attempts = 3;
}
