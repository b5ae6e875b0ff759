-- ===== src/Reconcile/HostKeyed.antt =====
-- src/cert_publisher/reconcile.py, _reconcile_host_keyed: the host owns the key.
pub mod Safety
pub mod Cooldown
use cert_publisher.Prelude.{
  ℕ, String, Bool, true, false, not, ◌&&◌, Option, none, some, List, [], ◌∷◌, ◌==◌, nat_eq,
  if◌then◌else◌,
}
use cert_publisher.Prelude.Int.{ℤ, ◌+ℤ◌}
use cert_publisher.Prelude.Text.{concat}
use cert_publisher.Resources.{Bytes, Publication, Status}
use cert_publisher.Effects.{
  value_error, Exception, Result, raised, World, builds_provisioner, reads_installed, Action, pure,
  lift, perform, get_publication, ◌>>=◌, ◌>>◌,
}
use cert_publisher.Utils.{sha256_fingerprint}
use cert_publisher.Status.{
  published, error, reason_misconfigured, reason_signing_cooldown, defaults, set_status,
}
use cert_publisher.Reconcile.Renewal.{
  Requeue, restart_signing_requeue, signing_cooldown, routine_renewal, is_blank,
  renew_before_problem, renewal_reason, signing_cooldown_remaining,
}
use cert_publisher.Reconcile.Signing.{start_signing, retry_time}
use cert_publisher.Reconcile.Resolution.{resolve_pending_request}

-- `observed is not None and observed != meta.get("generation")`
unfoldable pub spec_changed : Option ℕ → Option ℕ → Bool
spec_changed none generation = false
spec_changed (some observed) none = true
spec_changed (some observed) (some generation) = not (nat_eq observed generation)

module _ ⦃w : World⦄ where
  pub misconfigured : String → Action Requeue
  misconfigured problem = do
    set_status error (concat ("Misconfigured: " ∷ problem ∷ []))
        (record defaults { reason = some reason_misconfigured })
    pure none

  -- `sha256_fingerprint(None)`, which the code does not reach, would raise.
  fingerprint_of : Option Bytes → Result String
  fingerprint_of none = raised (record { kind = value_error; text = "" })
  fingerprint_of (some installed) = sha256_fingerprint installed

  pub up_to_date : Option Bytes → Action Requeue
  unfolding fingerprint_of
  up_to_date installed = do
    fingerprint ← lift (fingerprint_of installed)
    set_status published "Certificate up to date"
        (record defaults { published_fingerprint = some fingerprint })
    pure none

  hold_message : String → ℤ → String
  hold_message reason remaining = concat (
      "A signing round started less than "
      ∷ w.str_timedelta signing_cooldown
      ∷ " ago but the host still needs renewal ("
      ∷ reason
      ∷ "); not starting another for "
      ∷ w.str_timedelta remaining
      ∷ ". If a certificate was imported, check that the iDRAC restarted to apply it and that it carries the expected subject alternative names. If no certificate was issued, check the issuer and any approver policy for this namespace. If the round never got as far as a request, the Events on this publication say what stopped it. Editing the publication's spec retries immediately; so does clearing .status.lastSigningTime."
      ∷ [])

  pub hold : String → ℤ → Action Requeue
  unfolding hold_message
  hold reason remaining = do
    retry_at ← retry_time (remaining +ℤ restart_signing_requeue)
    set_status error (hold_message reason remaining)
        (record defaults { reason = some reason_signing_cooldown; next_retry = some retry_at })
    pure (some (remaining +ℤ restart_signing_requeue))

  start : String → Action Requeue
  start reason = start_signing reason (reason == routine_renewal)

  -- With what is left of the cooldown, if it is still running.
  open_round : Bool → String → Option ℤ → Action Requeue
  unfolding hold start
  open_round changed reason none = start reason
  open_round changed reason (some remaining) =
      if changed then start reason else hold reason remaining

  renew : Option Bytes → Option String → Action Requeue
  unfolding open_round up_to_date
  renew installed none = up_to_date installed
  renew installed (some reason) = do
    p ← get_publication
    remaining ← signing_cooldown_remaining p.status
    open_round (spec_changed p.status.observed_generation p.generation) reason remaining

  check : Option Bytes → Option String → Action Requeue
  unfolding misconfigured renew
  check installed (some problem) = misconfigured problem
  check installed none = do
    p ← get_publication
    reason ← renewal_reason installed p.spec p.status
    renew installed reason

  decide : Action Requeue
  unfolding check
  decide = do
    p ← get_publication
    installed ← perform reads_installed (λ h. w.installed_certificate h)
    problem ← lift (renew_before_problem installed p.spec)
    check installed problem

  -- An empty name of a pending request counts as none.
  resolve_or_decide : Option String → Action Requeue
  unfolding decide
  resolve_or_decide none = decide
  resolve_or_decide (some name) = if name == "" then decide else resolve_pending_request name

  pub reconcile_host_keyed : Action Requeue
  unfolding resolve_or_decide
  reconcile_host_keyed = do
    p ← get_publication
    perform builds_provisioner (λ h. w.build_provisioner h p)
    resolve_or_decide p.status.pending_request_name
