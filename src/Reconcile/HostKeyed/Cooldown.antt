-- ===== src/Reconcile/HostKeyed/Cooldown.antt =====
-- The cooldown between signing rounds, over a whole pass.
use cert_publisher.Prelude.{
  ℕ, ◌+◌, ◌<◌, ◌≡◌, refl, ◌∙◌, ap, String, Bool, true, false, Option, none, some, ◌==◌,
  if◌then◌else◌,
}
use cert_publisher.Prelude.Int.{ℤ}
use cert_publisher.Resources.{Bytes, Publication}
use cert_publisher.Effects.{
  Exception, Result, ok, World, State, Call, builds_provisioner, reads_installed,
}
use cert_publisher.Effects.Hoare.{
  Post, called, Post-bind, Post-perform, Post-lift, Post-get_publication, Post-map,
}
use cert_publisher.Utils.{parse_rfc3339}
use cert_publisher.Reconcile.Keeps.{Reads, IsHarmless}
use cert_publisher.Reconcile.Policy.{any_event, rotates, harmless-keeps_key}
use cert_publisher.Reconcile.Renewal.{renew_before_problem}
use cert_publisher.Reconcile.Renewal.Cooldown.{
  Keeps-renewal_reason, signing_cooldown_remaining-some,
}
use cert_publisher.Reconcile.Resolution.{resolve_pending_request}
use cert_publisher.Reconcile.Resolution.Key.{StableImport, Keeps-resolve_pending_request}
use cert_publisher.Reconcile.HostKeyed.{
  spec_changed, open_round, renew, check, decide, resolve_or_decide, reconcile_host_keyed,
}
use cert_publisher.Reconcile.HostKeyed.Safety.{Keeps-misconfigured, Keeps-up_to_date, Keeps-hold}

-- No CSR was asked for.
abbrev pub IsUnrotated : State → Type 0
IsUnrotated s = any_event rotates s.history ≡ false

module _ ⦃w : World⦄ where
  IsUnrotated-StableImport : StableImport IsUnrotated
  unfolding rotates
  IsUnrotated-StableImport = record {
    stable = record {
      read = λ s n p. p;
      call = λ c b s h p. rw (harmless-keeps_key c b h) p;
      write = λ s status p. p;
    };
    imported = λ cert_pem b s p. p;
  }

module _ ⦃w : World⦄ (p : Publication) (stamp : String) (when : ℕ)
    (stamped : p.status.last_signing_time ≡ some stamp) (nonempty : (stamp == "") ≡ false)
    (readable : parse_rfc3339 stamp ≡ ok when) (running : (n : ℕ) → w.clock n < when + 3600000000)
    (unchanged : spec_changed p.status.observed_generation p.generation ≡ false) where
  -- Before any write of the status.
  abbrev Early : State → Type 0
  Early s = (s.publication ≡ p) × IsUnrotated s

  Early-Reads : Reads Early
  Early-Reads = record { read = λ s n h. h }

  abbrev Kept : {A : Type 0} → A → State → Type 0
  Kept _ t = IsUnrotated t

  abbrev Failed : Exception → State → Type 0
  Failed _ t = IsUnrotated t

  open_round-held :
      (reason : String) (remaining : ℤ) (s : State)
      → IsUnrotated s
      → Post Kept Failed (open_round false reason (some remaining) s)
  unfolding open_round
  open_round-held reason remaining s u =
      (Keeps-hold IsUnrotated-StableImport.stable reason remaining).at s u

  Early-or_Failed :
      {A : Type 0} (o : Result A × State)
      → Post (λ _ t. Early t) (λ _ t. Early t) o
      → Post (λ _ t. Early t) Failed o
  Early-or_Failed o h = Post-map (λ _ t. Early t) Failed o h (λ a t e. e) (λ e t k. k.1)

  renew-IsUnrotated :
      (installed : Option Bytes) (reason : Option String) (s : State)
      → Early s
      → Post Kept Failed (renew installed reason s)
  unfolding renew
  renew-IsUnrotated installed none s e =
      (Keeps-up_to_date IsUnrotated-StableImport.stable installed).at s e.1
  renew-IsUnrotated installed (some reason) s e = Post-get_publication _ _ _ s (
      Post-bind (λ o t. ((r : ℤ) × (o ≡ some r)) × IsUnrotated t) _ _ _ _ s
        (let q = ap (λ (q : Publication). q.status.last_signing_time) e.0 ∙ stamped in
          rw
            (signing_cooldown_remaining-some s.publication.status stamp when s q nonempty readable
              (running s.readings))
            (((_, refl), e.1)))
        (λ remaining t h.
          let ((r, f), u) = h in
          let c =
            ap (λ (q : Publication). spec_changed q.status.observed_generation q.generation) e.0
            ∙ unchanged in
          rw (c, f) (open_round-held reason r t u)))

  check-IsUnrotated :
      (installed : Option Bytes) (problem : Option String) (s : State)
      → Early s
      → Post Kept Failed (check installed problem s)
  unfolding check
  check-IsUnrotated installed (some problem) s e =
      (Keeps-misconfigured IsUnrotated-StableImport.stable problem).at s e.1
  check-IsUnrotated installed none s e = Post-get_publication _ _ _ s (
      Post-bind (λ _ t. Early t) _ _ _ _ s
        (Early-or_Failed _ (
          (Keeps-renewal_reason Early-Reads installed s.publication.spec s.publication.status).at s
            e))
        (λ reason t g. renew-IsUnrotated installed reason t g))

  Early-called : (c : Call) (b : Bool) (s : State) → IsHarmless c → Early s → Early (called c b s)
  Early-called c b s h e = (e.0, rw (harmless-keeps_key c b h) e.1)

  decide-IsUnrotated : (s : State) → Early s → Post Kept Failed (decide s)
  unfolding decide
  decide-IsUnrotated s e = Post-get_publication _ _ _ s (
      Post-bind (λ _ t. Early t) _ _ _ _ s
        (Post-perform _ _ _ _ s (λ a _. Early-called reads_installed true s tt e)
          (λ x. (Early-called reads_installed false s tt e).1))
        (λ installed t g.
          Post-lift _ _ (renew_before_problem installed s.publication.spec) _ t
            (λ problem _. check-IsUnrotated installed problem t g) (λ x. g.1)))

  resolve_or_decide-IsUnrotated :
      (pending : Option String) (s : State)
      → Early s
      → Post Kept Failed (resolve_or_decide pending s)
  unfolding resolve_or_decide
  resolve_or_decide-IsUnrotated none s e = decide-IsUnrotated s e
  resolve_or_decide-IsUnrotated (some name) s e =
      elim (name == "")
        as (λ b. Post Kept Failed ((if b then decide else resolve_pending_request name) s)) [
          | true ↦ decide-IsUnrotated s e
          | false ↦ (Keeps-resolve_pending_request IsUnrotated-StableImport name).at s e.1
        ]

  reconcile_host_keyed-held : (s : State) → Early s → Post Kept Failed (reconcile_host_keyed s)
  unfolding reconcile_host_keyed
  reconcile_host_keyed-held s e = Post-get_publication _ _ _ s (
      Post-bind (λ _ t. Early t) _ _ _ _ s
        (Post-perform _ _ _ _ s (λ a _. Early-called builds_provisioner true s tt e)
          (λ x. (Early-called builds_provisioner false s tt e).1))
        (λ _ t g. resolve_or_decide-IsUnrotated s.publication.status.pending_request_name t g))

-- While the clock is less than an hour past a stored time of signing that can be read, and
-- the spec has not changed since the last status, no pass over a publication with a host-owned key
-- asks for a CSR, whatever the host and the server answer, whether it returns or raises.
pub reconcile_host_keyed-IsUnrotated :
    ⦃w : World⦄ (s : State) (stamp : String) (when : ℕ)
    → s.publication.status.last_signing_time ≡ some stamp
    → (stamp == "") ≡ false
    → parse_rfc3339 stamp ≡ ok when
    → ((n : ℕ) → w.clock n < when + 3600000000)
    → spec_changed s.publication.status.observed_generation s.publication.generation ≡ false
    → IsUnrotated s
    → Post (λ _ t. IsUnrotated t) (λ _ t. IsUnrotated t) (reconcile_host_keyed s)
reconcile_host_keyed-IsUnrotated s stamp when stamped nonempty readable running unchanged u =
    reconcile_host_keyed-held s.publication stamp when stamped nonempty readable running unchanged s
      (refl, u)
