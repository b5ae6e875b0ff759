-- ===== src/Reconcile/Signing.antt =====
-- src/cert_publisher/reconcile.py: opening a signing round, and clearing a request that is of no use.
pub mod Rounds
use Prim.Native.String
use text.Mathlib.Text.{starts_with}
use cert_publisher.Prelude.{
  ℕ, zero, suc, String, Bool, true, false, not, Option, none, some, List, [], ◌∷◌, ◌==◌, ltb,
  if◌then◌else◌,
}
use cert_publisher.Prelude.Int.{ℤ, pos, ◌+ℤ◌, ltb_ℤ, pos_part}
use cert_publisher.Prelude.Text.{truncate, concat}
use cert_publisher.Resources.{Bytes, Publication, CertificateRequest, Spec, set_to}
use cert_publisher.Effects.{
  lookup_error, Exception, Result, ok, raised, is_value_error, World, generates_csr,
  reads_installed, imports, State, Action, pure, lift, perform, get_publication, now_utc,
  try_except, ◌>>=◌, ◌>>◌,
}
use cert_publisher.Utils.{rfc3339, sha256_fingerprint}
use cert_publisher.Kube.{
  get_certificate_request, create_certificate_request, delete_certificate_request,
}
use cert_publisher.Certmanager.{
  build_certificate_request_body, issued_certificate, RequestState, request_ready, request_pending,
  request_failed, certificate_request_state,
}
use cert_publisher.Status.{
  pending, published, error, reason_signing_pending, reason_signing_failed,
  reason_signing_not_signed, reason_unusable_certificate, is_ready, Options, defaults, set_status,
}
use cert_publisher.Reconcile.Renewal.{
  Requeue, awaiting_issuance_requeue, restart_signing_requeue, request_timeout, is_blank,
  on_value_error, time_since, signing_cooldown_remaining, unusable_signed_certificate,
}

-- `dns_names[0]`
first : List String → Result String
first [] = raised (record { kind = lookup_error; text = "list index out of range" })
first (n ∷ ns) = ok n

-- `spec.get("commonName") or dns_names[0]`
common_name_of : Spec → Result String
unfolding first
common_name_of spec = elim spec.common_name [
  | none ↦ first spec.dns_names
  | some c ↦ if c == "" then first spec.dns_names else ok c
]

abbrev opening_options : Bool → Options
opening_options still_serving = record defaults {
  reason = some reason_signing_pending;
  mark_signing = true;
  strict = true;
  ready = some still_serving;
}

abbrev opening_message : String → String
opening_message reason = concat ("Opening a signing round (" ∷ reason ∷ ")" ∷ [])

abbrev submitting_options : Bool → String → Options
submitting_options still_serving name = record defaults {
  reason = some reason_signing_pending;
  pending_request = set_to (some name);
  strict = true;
  ready = some still_serving;
}

unfoldable pub restart_delay : Option ℤ → ℤ
restart_delay none = restart_signing_requeue
restart_delay (some remaining) = remaining +ℤ restart_signing_requeue

module _ ⦃w : World⦄ where
  request_name : Publication → Bytes → String
  request_name p csr_pem = concat (p.name ∷ "-" ∷ truncate 10 (w.sha256_hex csr_pem) ∷ [])

  generate : Publication → Action Bytes
  generate p = do
    common_name ← lift (common_name_of p.spec)
    perform (generates_csr common_name p.spec.dns_names)
        (λ h. w.generate_csr h common_name p.spec.dns_names)

  -- The name of the request is recorded before the request is created.
  submit : Publication → String → Bool → Bytes → Action Requeue
  submit p reason still_serving csr_pem = do
    set_status pending
        (concat ("Signing request submitted (" ∷ reason ∷ "); awaiting issuance" ∷ []))
        (submitting_options still_serving (request_name p csr_pem))
    body ← lift (build_certificate_request_body p (request_name p csr_pem) csr_pem)
    create_certificate_request p.namespace body
    pure (some awaiting_issuance_requeue)

  -- The stamp is recorded before the host is asked for a CSR.
  pub start_signing : String → Bool → Action Requeue
  unfolding generate submit
  start_signing reason still_serving = do
    p ← get_publication
    set_status pending (opening_message reason) (opening_options still_serving)
    csr_pem ← generate p
    submit p reason still_serving csr_pem

  -- A time of the clock, some span from now. The status has whole seconds; a time before the first
  -- of the calendar is its first.
  unfoldable pub retry_time : ℤ → Action String
  retry_time delay = do now ← now_utc; pure (rfc3339 (pos_part (pos now +ℤ delay)))

  restart_message : String → Option ℤ → String
  restart_message message none = concat (message ∷ "; a new one will be created" ∷ [])
  restart_message message (some remaining) = concat (
      message
      ∷ "; a new one will be created when the signing cooldown ends in "
      ∷ w.str_timedelta (w.round_seconds remaining)
      ∷ ". Editing the publication's spec retries immediately; so does clearing .status.lastSigningTime."
      ∷ [])

  pub restart_signing : String → String → Action Requeue
  unfolding restart_delay restart_message retry_time
  restart_signing message reason = do
    p ← get_publication
    remaining ← signing_cooldown_remaining p.status
    retry_at ← retry_time (restart_delay remaining)
    set_status pending (restart_message message remaining) (record defaults {
      reason = some reason;
      pending_request = set_to none;
      next_retry = some retry_at;
      ready = some (is_ready p);
    })
    pure (some (restart_delay remaining))
