-- ===== src/Reconcile/Renewal.antt =====
-- src/cert_publisher/reconcile.py: what the passes have in common, and the decisions on a
-- certificate that a host holds or that was signed. Spans of time are microseconds.
pub mod Cooldown
pub mod Decision
use cert_publisher.Prelude.{
  ℕ, ◌-◌, String, Bool, true, false, not, ◌&&◌, ◌||◌, Option, none, some, List, [], ◌∷◌, ◌==◌, leb,
  ltb, if◌then◌else◌,
}
use cert_publisher.Prelude.Int.{ℤ, pos, sub_ℕ, ◌+ℤ◌, ◌-ℤ◌, leb_ℤ}
use cert_publisher.Prelude.Text.{concat}
use cert_publisher.Resources.{Bytes, X509, Spec, Status}
use cert_publisher.Effects.{
  Exception, Result, ok, raised, is_value_error, World, Action, pure, lift, now_utc,
  except_value_error, ◌>>=◌, ◌>>◌,
}
use cert_publisher.Utils.{
  and_then, parse_rfc3339, leaf_certificate, sha256_fingerprint, renewal_due,
}
use cert_publisher.Utils.Duration.{parse_go_duration}
use cert_publisher.Reconcile.Names.{missing_names, comma_join}

-- `Result.requeue_after`
abbrev pub Requeue : Type 0
Requeue = Option ℤ

abbrev pub awaiting_issuance_requeue : ℤ
awaiting_issuance_requeue = pos 120000000

abbrev pub restart_signing_requeue : ℤ
restart_signing_requeue = pos 5000000

abbrev pub signing_cooldown : ℤ
signing_cooldown = pos 3600000000

abbrev pub request_timeout : ℤ
request_timeout = pos 3600000000

abbrev pub routine_renewal : String
routine_renewal = "the installed certificate is due for renewal"

-- `value` is None or empty.
abbrev pub is_blank : Option String → Bool
is_blank none = true
is_blank (some s) = s == ""

-- `try: r; except ValueError: handler`, and what follows if nothing was raised.
abbrev pub on_value_error {ℓ κ} :
    {A : Type ℓ} {B : Type κ} → Result A → Result B → (A → Result B) → Result B
on_value_error (ok a) handler k = k a
on_value_error (raised e) handler k = if is_value_error e.kind then handler else raised e

-- The parts of the decision that need no clock: a reason, or the certificate to look at further.
pub data Verdict : Type 0 where
  due : String → Verdict
  look : X509 → Verdict

-- What the cooldown has left, by the time since the last round opened.
pub cooldown_left : Option ℤ → Option ℤ
cooldown_left none = none
cooldown_left (some since) =
    if leb_ℤ signing_cooldown since then none else some (signing_cooldown -ℤ since)

coverage : Spec → X509 → Verdict
coverage spec cert = elim (missing_names spec.dns_names cert.dns_names) [
  | [] ↦ look cert
  | m ∷ ms ↦ due (concat ("the installed certificate does not cover " ∷ comma_join (m ∷ ms) ∷ []))
]

-- The problem with a certificate that lacks these names.
pub uncovered : List String → Option String
uncovered [] = none
uncovered (n ∷ ns) = some (concat ("it does not cover " ∷ comma_join (n ∷ ns) ∷ []))

module _ ⦃w : World⦄ where
  -- `now_utc() - when`
  elapsed : Option ℕ → Action (Option ℤ)
  elapsed none = pure none
  elapsed (some when) = do now ← now_utc; pure (some (sub_ℕ now when))

  pub time_since : Option String → Action (Option ℤ)
  unfolding elapsed
  time_since none = pure none
  time_since (some stamp) = if stamp == "" then pure none else do
    when ← except_value_error (do t ← lift (parse_rfc3339 stamp); pure (some t)) (pure none)
    elapsed when

  pub signing_cooldown_remaining : Status → Action (Option ℤ)
  unfolding cooldown_left
  signing_cooldown_remaining status = do
    since ← time_since status.last_signing_time
    pure (cooldown_left since)

  window_problem : String → X509 → ℕ → Result (Option String)
  window_problem renew_before cert window =
      if leb (cert.not_after - cert.not_before) window
      then ok (
          some (
            concat (
              "renewBefore ("
              ∷ renew_before
              ∷ ") is longer than the lifetime of the certificate being issued ("
              ∷ w.str_timedelta (pos (cert.not_after - cert.not_before))
              ∷ "), so it would be treated as due for renewal the moment it is installed"
              ∷ [])))
      else ok none

  -- With a `renewBefore` and an installed certificate.
  renew_before_check : String → Bytes → Result (Option String)
  unfolding window_problem
  renew_before_check renew_before installed =
      on_value_error (leaf_certificate installed) (ok none) (λ cert.
        on_value_error (parse_go_duration renew_before)
          (ok (
            some (concat ("renewBefore " ∷ w.repr renew_before ∷ " is not a valid duration" ∷ []))))
          (λ window. window_problem renew_before cert window))

  pub renew_before_problem : Option Bytes → Spec → Result (Option String)
  unfolding renew_before_check
  renew_before_problem none spec = ok none
  renew_before_problem (some installed) spec = elim spec.renew_before [
    | none ↦ ok none
    | some r ↦ if r == "" then ok none else renew_before_check r installed
  ]

  identity : Bytes → Spec → Status → X509 → Result Verdict
  unfolding coverage
  identity installed spec status cert = elim status.published_fingerprint [
    | none ↦ ok (due "no certificate has been published to this host yet")
    | some published ↦
        if published == ""
        then ok (due "no certificate has been published to this host yet")
        else and_then (sha256_fingerprint installed) (λ f.
          if not (published == f)
          then ok (due "the installed certificate was not published by cert-publisher")
          else ok (coverage spec cert))
  ]

  pub static_reason : Option Bytes → Spec → Status → Result Verdict
  unfolding identity
  static_reason none spec status = ok (due "the host is not serving a certificate we can read")
  static_reason (some installed) spec status =
      on_value_error (leaf_certificate installed)
        (ok (due "the installed certificate could not be parsed"))
        (λ cert. identity installed spec status cert)

  -- The parts that look at the clock.
  pub timed_reason : X509 → Spec → ℕ → Result (Option String)
  timed_reason cert spec now =
      if not (leb cert.not_before now && ltb now cert.not_after)
      then ok (some "the installed certificate is expired or not yet valid")
      else and_then (renewal_due cert spec.renew_before now)
          (λ is_due. ok (if is_due then some routine_renewal else none))

  at_verdict : Spec → Verdict → Action (Option String)
  unfolding timed_reason
  at_verdict spec (due reason) = pure (some reason)
  at_verdict spec (look cert) = do now ← now_utc; lift (timed_reason cert spec now)

  pub renewal_reason : Option Bytes → Spec → Status → Action (Option String)
  unfolding static_reason at_verdict
  renewal_reason installed spec status = do
    verdict ← lift (static_reason installed spec status)
    at_verdict spec verdict

  -- Why the signed certificate must not be installed.
  pub unusable_signed_certificate : Bytes → Spec → Result (Option String)
  unfolding uncovered
  unusable_signed_certificate cert_pem spec =
      on_value_error (leaf_certificate cert_pem) (ok (some "it could not be parsed"))
        (λ cert. ok (uncovered (missing_names spec.dns_names cert.dns_names)))
