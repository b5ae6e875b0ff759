-- ===== src/Reconcile/Resolution.antt =====
-- src/cert_publisher/reconcile.py: what becomes of the signing request of the last round.
pub mod Import
pub mod Key
use Prim.Native.String
use text.Mathlib.Text.{starts_with}
use cert_publisher.Prelude.{
  ℕ, zero, suc, String, Bool, true, false, not, Option, none, some, List, [], ◌∷◌, ◌==◌, ltb,
  if◌then◌else◌,
}
use cert_publisher.Prelude.Int.{ℤ, pos, ◌+ℤ◌, ltb_ℤ, pos_part}
use cert_publisher.Prelude.Text.{truncate, concat}
use cert_publisher.Resources.{Bytes, Publication, CertificateRequest, Spec, set_to}
use cert_publisher.Effects.{
  lookup_error, Exception, Result, ok, raised, is_value_error, World, generates_csr,
  reads_installed, imports, State, Action, pure, lift, perform, get_publication, now_utc,
  try_except, ◌>>=◌, ◌>>◌,
}
use cert_publisher.Utils.{rfc3339, sha256_fingerprint}
use cert_publisher.Kube.{
  get_certificate_request, create_certificate_request, delete_certificate_request,
}
use cert_publisher.Certmanager.{
  build_certificate_request_body, issued_certificate, RequestState, request_ready, request_pending,
  request_failed, certificate_request_state,
}
use cert_publisher.Status.{
  pending, published, error, reason_signing_pending, reason_signing_failed,
  reason_signing_not_signed, reason_unusable_certificate, is_ready, defaults, set_status,
}
use cert_publisher.Reconcile.Renewal.{
  Requeue, awaiting_issuance_requeue, restart_signing_requeue, request_timeout, is_blank,
  on_value_error, time_since, signing_cooldown_remaining, unusable_signed_certificate,
}
use cert_publisher.Reconcile.Signing.{retry_time, restart_delay, restart_signing}

-- `text.replace("+00:00", "Z")`, with the number of characters that the last match still covers.
replace_from : ℕ → String → String
replace_from skip String.[] = String.[]
replace_from (suc skip) (String.◌∷◌ c s) = replace_from skip s
replace_from zero (String.◌∷◌ c s) =
    if starts_with (String.◌∷◌ c s) "+00:00"
    then String.◌++◌ "Z" (replace_from 5 s)
    else String.◌∷◌ c (replace_from zero s)

or_empty : Option String → String
or_empty none = ""
or_empty (some s) = s

module _ ⦃w : World⦄ where
  -- Whether the host holds the certificate with this fingerprint.
  same_fingerprint : Option Bytes → String → Result Bool
  same_fingerprint none fingerprint = ok false
  same_fingerprint (some installed) fingerprint =
      on_value_error (sha256_fingerprint installed) (ok false) (λ f. ok (f == fingerprint))

  pub already_installed : String → Action Bool
  unfolding same_fingerprint
  already_installed fingerprint = do
    installed ←
        try_except (perform reads_installed (λ h. w.installed_certificate h)) (λ e. pure none)
    lift (same_fingerprint installed fingerprint)

  unanswered : String → Action Requeue
  unfolding retry_time
  unanswered detail = do
    retry_at ← retry_time restart_signing_requeue
    set_status error
        (concat (
          "Signing request was not signed within "
          ∷ w.str_timedelta request_timeout
          ∷ " ("
          ∷ detail
          ∷ "); check that an approver is configured for this issuer. A new request will be created."
          ∷ []))
        (record defaults {
          reason = some reason_signing_not_signed;
          pending_request = set_to none;
          next_retry = some retry_at;
        })
    pure (some restart_signing_requeue)

  overdue : Option ℤ → Bool
  overdue none = false
  overdue (some age) = ltb_ℤ request_timeout age

  expire : String → String → Action Requeue
  unfolding unanswered
  expire name detail = do
    p ← get_publication
    delete_certificate_request p.namespace name
    unanswered detail

  keep_waiting : String → Action Requeue
  keep_waiting detail = do
    p ← get_publication
    set_status pending (concat ("Awaiting certificate issuance (" ∷ detail ∷ ")" ∷ []))
        (record defaults { reason = some reason_signing_pending; ready = some (is_ready p) })
    pure (some awaiting_issuance_requeue)

  pub still_pending : CertificateRequest → String → String → Action Requeue
  unfolding expire keep_waiting overdue replace_from or_empty
  still_pending request name detail = do
    age ← time_since (some (replace_from 0 (or_empty request.creation_timestamp)))
    if overdue age then expire name detail else keep_waiting detail

  unusable_message : String → Option ℤ → String
  unusable_message problem none = concat (
      "The signed certificate was not installed because " ∷ problem
      ∷ ". This usually means the host's CSR did not carry the requested subject alternative names."
      ∷ [])
  unusable_message problem (some remaining) = concat (
      "The signed certificate was not installed because "
      ∷ problem
      ∷ ". This usually means the host's CSR did not carry the requested subject alternative names."
      ∷ " A new signing round opens when the signing cooldown ends in "
      ∷ w.str_timedelta (w.round_seconds remaining)
      ∷ ". Editing the publication's spec retries immediately; so does clearing .status.lastSigningTime."
      ∷ [])

  pub refuse : String → String → Action Requeue
  unfolding unusable_message restart_delay retry_time
  refuse name problem = do
    p ← get_publication
    delete_certificate_request p.namespace name
    remaining ← signing_cooldown_remaining p.status
    retry_at ← retry_time (restart_delay remaining)
    set_status error (unusable_message problem remaining) (record defaults {
      reason = some reason_unusable_certificate;
      pending_request = set_to none;
      next_retry = some retry_at;
    })
    pure (some (restart_delay remaining))

  import_unless : Bool → Bytes → Action (Unit {0})
  import_unless true cert_pem = pure tt
  import_unless false cert_pem = perform (imports cert_pem) (λ h. w.import_certificate h cert_pem)

  pub finish : String → String → String → Action Requeue
  finish namespace name fingerprint = do
    delete_certificate_request namespace name
    set_status published "Certificate published" (record defaults {
      published_fingerprint = some fingerprint;
      mark_published = true;
      pending_request = set_to none;
    })
    pure none

  -- The request is deleted only once the host has taken the certificate.
  publish_signed : String → Bytes → Action Requeue
  unfolding import_unless finish
  publish_signed name cert_pem = do
    p ← get_publication
    fingerprint ← lift (sha256_fingerprint cert_pem)
    installed ← already_installed fingerprint
    import_unless installed cert_pem
    finish p.namespace name fingerprint

  use_or_refuse : String → Bytes → Option String → Action Requeue
  unfolding refuse publish_signed
  use_or_refuse name cert_pem none = publish_signed name cert_pem
  use_or_refuse name cert_pem (some problem) = refuse name problem

  signed : CertificateRequest → String → Action Requeue
  unfolding use_or_refuse
  signed request name = do
    p ← get_publication
    cert_pem ← lift (issued_certificate request)
    problem ← lift (unusable_signed_certificate cert_pem p.spec)
    use_or_refuse name cert_pem problem

  answered : CertificateRequest → String → RequestState → String → Action Requeue
  unfolding signed still_pending
  answered request name request_failed detail = do
    p ← get_publication
    delete_certificate_request p.namespace name
    restart_signing (concat ("Signing request failed (" ∷ detail ∷ ")" ∷ [])) reason_signing_failed
  answered request name request_pending detail = still_pending request name detail
  answered request name request_ready detail = signed request name

  resolve_request : Option CertificateRequest → String → Action Requeue
  unfolding answered
  resolve_request none name =
      restart_signing "Pending signing request disappeared" reason_signing_failed
  resolve_request (some request) name =
      let (state, detail) = certificate_request_state request in answered request name state detail

  pub resolve_pending_request : String → Action Requeue
  unfolding resolve_request
  resolve_pending_request name = do
    p ← get_publication
    request ← get_certificate_request p.namespace name
    resolve_request request name
