-- ===== src/Samples.antt =====
-- Concrete data for the examples: small queues, and an outside that answers every call.
use cert_publisher.Prelude.{true, none, some, [], ◌∷◌}
use cert_publisher.Json.{null, end}
use cert_publisher.Resources.{X509, Spec, Publication, empty_status}
use cert_publisher.Effects.{ok, raised, value_error, State, World}
use cert_publisher.WorkQueue.{WorkQueue, init}
use cert_publisher.Backoff.{ExponentialBackoff, RateLimitingQueue}

abbrev pub queued : WorkQueue
queued = record init { queue = "a" ∷ []; dirty = "a" ∷ [] }

abbrev pub in_flight : WorkQueue
in_flight = record init { processing = "a" ∷ [] }

abbrev pub closed : WorkQueue
closed = record init { is_shutdown = true }

abbrev pub scheduled : WorkQueue
scheduled = record init {
  waiting = record { due = 5; sequence = 0; key = "a" } ∷ [];
  deadlines = ("a", 5) ∷ [];
  next_sequence = 1;
}

abbrev pub backoff : ExponentialBackoff
backoff = record { base = 10; maximum = 600; jitter = 100; counts = ("a", 2) ∷ [] }

abbrev pub limited : RateLimitingQueue
limited = record { queue = init; backoff = backoff }

abbrev pub certificate : X509
certificate = record {
  fingerprint = "f0";
  dns_names = "host.example" ∷ [];
  not_before = 0;
  not_after = 9000000;
}

abbrev pub world : World
world = record {
  load_pem = λ p. ok certificate;
  load_csr = λ p. ok (record { key_usage = none; extended_key_usage = none });
  sha256_hex = λ b. "0123456789abcdef";
  b64decode = λ s. ok [];
  b64encode = λ b. "";
  strftime = λ t. "2026-01-01T00:00:00Z";
  strptime = λ s. ok 0;
  str_timedelta = λ d. "1:00:00";
  round_seconds = λ d. d;
  repr = λ s. s;
  clock = λ n. 60000000;
  read_publication = λ h n m. raised (record { kind = value_error; text = "" });
  read_certificate = λ h n m. ok (record { spec = end });
  create_certificate = λ h n b. ok tt;
  patch_certificate = λ h n m b. ok tt;
  read_request = λ h n m. raised (record { kind = value_error; text = "" });
  create_request = λ h n b. ok tt;
  delete_request = λ h n m. ok tt;
  patch_status = λ h n m p. ok tt;
  read_secret = λ h n m. ok (record { contents = none });
  post_event = λ h n e. ok tt;
  build_provisioner = λ h p. ok tt;
  is_current = λ h b. ok (true, none);
  install = λ h b k. ok tt;
  installed_certificate = λ h. ok none;
  generate_csr = λ h c n. ok [];
  import_certificate = λ h b. ok tt;
}

abbrev pub spec : Spec
spec = record {
  dns_names = "host.example" ∷ [];
  issuer_ref = null;
  common_name = none;
  secret_name = none;
  duration = none;
  renew_before = none;
  usages = none;
  private_key = none;
  provisioner_type = "idrac8";
}

abbrev pub publication : Publication
publication = record {
  namespace = "ns";
  name = "host";
  uid = "u";
  generation = some 1;
  spec = spec;
  status = empty_status;
}

-- Before a pass: no call was made yet.
abbrev pub fresh : State
fresh = record { publication = publication; history = []; readings = 0 }

-- A publication whose last signing round opened at the first instant of the calendar.
abbrev pub signing : State
signing = record {
  publication = record publication {
    status = record empty_status { last_signing_time = some "0001-01-01T00:00:00Z" };
  };
  history = [];
  readings = 0;
}
