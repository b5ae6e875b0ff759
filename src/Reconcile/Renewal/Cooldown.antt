-- ===== src/Reconcile/Renewal/Cooldown.antt =====
-- The reading of the signing cooldown.
use cert_publisher.Prelude.{
  suc, ◌+◌, ◌<◌, ◌≡◌, refl, false, ◌==◌, arith, ℕ, String, Option, none, some,
}
use cert_publisher.Prelude.Int.{sub_ℕ, ◌-ℤ◌}
use cert_publisher.Utils.{parse_rfc3339}
use cert_publisher.Resources.{Status, Spec, Bytes}
use cert_publisher.Effects.{ok, lift, pure, except_value_error, now_utc, ◌>>=◌, World, State}
use cert_publisher.Reconcile.Keeps.{Reads, Keeps, keeps_rules}
use cert_publisher.Reconcile.Renewal.{
  cooldown_left, signing_cooldown, time_since, signing_cooldown_remaining, elapsed, Verdict, due,
  look, at_verdict, renewal_reason,
}

module _ ⦃w : World⦄ {P : State → Type 0} (re : Reads P) where
  pub Keeps-time_since : (stamp : Option String) → Keeps P (time_since stamp)
  unfolding time_since
  Keeps-time_since none = search keeps_rules
  Keeps-time_since (some s) = search (keeps_rules, Keeps-elapsed) depth 9
    where
      Keeps-elapsed : (o : Option ℕ) → Keeps P (elapsed o)
      Keeps-elapsed none = search keeps_rules
      Keeps-elapsed (some when) = search keeps_rules

  pub Keeps-signing_cooldown_remaining :
      (status : Status) → Keeps P (signing_cooldown_remaining status)
  unfolding signing_cooldown_remaining
  Keeps-signing_cooldown_remaining status = search (keeps_rules, Keeps-time_since)

  Keeps-at_verdict : (spec : Spec) (v : Verdict) → Keeps P (at_verdict spec v)
  unfolding at_verdict
  Keeps-at_verdict spec (due r) = search keeps_rules
  Keeps-at_verdict spec (look cert) = search keeps_rules

  pub Keeps-renewal_reason :
      (installed : Option Bytes) (spec : Spec) (status : Status)
      → Keeps P (renewal_reason installed spec status)
  unfolding renewal_reason
  Keeps-renewal_reason installed spec status = search (keeps_rules, Keeps-at_verdict)

-- A span of less than an hour since the last round leaves some of the cooldown.
cooldown_left-some :
    (now when : ℕ)
    → now < when + 3600000000
    → cooldown_left (some (sub_ℕ now when)) ≡ some (signing_cooldown -ℤ sub_ℕ now when)
unfolding cooldown_left
cooldown_left-some now when h = ground arith

module _ ⦃w : World⦄ where
  -- With a time of signing that can be read, and the clock less than an hour past it, some of the
  -- cooldown is left.
  pub signing_cooldown_remaining-some :
      (status : Status) (stamp : String) (when : ℕ) (s : State)
      → status.last_signing_time ≡ some stamp
      → (stamp == "") ≡ false
      → parse_rfc3339 stamp ≡ ok when
      → w.clock s.readings < when + 3600000000
      → signing_cooldown_remaining status s ≡ (
        ok (some (signing_cooldown -ℤ sub_ℕ (w.clock s.readings) when)),
        record s { readings = suc s.readings },
      )
  unfolding signing_cooldown_remaining time_since elapsed ◌>>=◌ lift pure except_value_error now_utc
  signing_cooldown_remaining-some status stamp when s e n p h =
      simp e (simp n (simp p (simp (cooldown_left-some (w.clock s.readings) when h) refl)))
