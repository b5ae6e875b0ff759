-- ===== src/Reconcile/HostKeyed/Safety.antt =====
-- What a whole pass over a publication with a host-owned key may do to the host.
use cert_publisher.Prelude.{String, Bool, true, false, Option, none, some, ◌==◌, if◌then◌else◌}
use cert_publisher.Prelude.Int.{ℤ}
use cert_publisher.Resources.{Bytes, Spec}
use cert_publisher.Effects.{Exception, Result, World, State, builds_provisioner}
use cert_publisher.Effects.Hoare.{Post, Post-bind, Post-lift, Post-get_publication, Post-map}
use cert_publisher.Reconcile.Keeps.{Stable-Reads, Stable, Keeps, keeps_rules, Keeps-perform}
use cert_publisher.Reconcile.Policy.{IsSound, IsFresh, IsFresh-Stable}
use cert_publisher.Reconcile.Renewal.{renew_before_problem}
use cert_publisher.Reconcile.Renewal.Cooldown.{
  Keeps-signing_cooldown_remaining, Keeps-renewal_reason,
}
use cert_publisher.Reconcile.Signing.Rounds.{Keeps-retry_time, start_signing-IsSound}
use cert_publisher.Reconcile.Resolution.{resolve_pending_request}
use cert_publisher.Reconcile.Resolution.Import.{resolve_pending_request-IsSound}
use cert_publisher.Reconcile.HostKeyed.{
  misconfigured, up_to_date, hold, start, open_round, renew, check, decide, resolve_or_decide,
  reconcile_host_keyed,
}

module _ ⦃w : World⦄ {P : State → Type 0} (st : Stable P) where
  pub Keeps-misconfigured : (problem : String) → Keeps P (misconfigured problem)
  unfolding misconfigured
  Keeps-misconfigured problem = search keeps_rules depth 12

  pub Keeps-up_to_date : (installed : Option Bytes) → Keeps P (up_to_date installed)
  unfolding up_to_date
  Keeps-up_to_date installed = search keeps_rules depth 12

  pub Keeps-hold : (reason : String) (remaining : ℤ) → Keeps P (hold reason remaining)
  unfolding hold
  Keeps-hold reason remaining = search (keeps_rules, Keeps-retry_time) depth 12

module _ ⦃w : World⦄ (spec : Spec) where
  abbrev Kept : {A : Type 0} → A → State → Type 0
  Kept _ t = IsSound spec t

  abbrev Sound : Exception → State → Type 0
  Sound _ t = IsSound spec t

  abbrev Fresh : {A : Type 0} → A → State → Type 0
  Fresh _ t = IsFresh spec t

  weaken : {A : Type 0} (o : Result A × State) → Post Fresh Fresh o → Post Kept Sound o
  weaken o h = Post-map Kept Sound o h (λ a s f. f.sound) (λ e s f. f.sound)

  first-Fresh : {A : Type 0} (o : Result A × State) → Post Fresh Fresh o → Post Fresh Sound o
  first-Fresh o h = Post-map Fresh Sound o h (λ a s f. f) (λ e s f. f.sound)

  open_round-IsSound :
      (changed : Bool) (reason : String) (remaining : Option ℤ) (s : State)
      → IsFresh spec s
      → Post Kept Sound (open_round changed reason remaining s)
  unfolding open_round start
  open_round-IsSound changed reason none s f = start_signing-IsSound spec reason _ s f
  open_round-IsSound true reason (some remaining) s f = start_signing-IsSound spec reason _ s f
  open_round-IsSound false reason (some remaining) s f =
      weaken _ ((Keeps-hold (IsFresh-Stable spec) reason remaining).at s f)

  renew-IsSound :
      (installed : Option Bytes) (reason : Option String) (s : State)
      → IsFresh spec s
      → Post Kept Sound (renew installed reason s)
  unfolding renew
  renew-IsSound installed none s f =
      weaken _ ((Keeps-up_to_date (IsFresh-Stable spec) installed).at s f)
  renew-IsSound installed (some reason) s f = Post-get_publication _ _ _ s (
      Post-bind Fresh _ _ _ _ s
        (first-Fresh _ (
          (Keeps-signing_cooldown_remaining (Stable-Reads (IsFresh-Stable spec))
              s.publication.status).at
            s f))
        (λ remaining t g. open_round-IsSound _ reason remaining t g))

  check-IsSound :
      (installed : Option Bytes) (problem : Option String) (s : State)
      → IsFresh spec s
      → Post Kept Sound (check installed problem s)
  unfolding check
  check-IsSound installed (some problem) s f =
      weaken _ ((Keeps-misconfigured (IsFresh-Stable spec) problem).at s f)
  check-IsSound installed none s f = Post-get_publication _ _ _ s (
      Post-bind Fresh _ _ _ _ s
        (first-Fresh _ (
          (Keeps-renewal_reason (Stable-Reads (IsFresh-Stable spec)) installed s.publication.spec
              s.publication.status).at
            s f))
        (λ reason t g. renew-IsSound installed reason t g))

  decide-IsSound : (s : State) → IsFresh spec s → Post Kept Sound (decide s)
  unfolding decide
  decide-IsSound s f =
      let st = IsFresh-Stable spec in
      Post-get_publication _ _ _ s (
        Post-bind Fresh _ _ _ _ s (first-Fresh _ ((Keeps-perform st _ _ tt).at s f))
          (λ installed t g.
            Post-lift _ _ (renew_before_problem installed s.publication.spec) _ t
              (λ problem _. check-IsSound installed problem t g) (λ e. g.sound)))

  resolve_or_decide-IsSound :
      (pending : Option String) (s : State)
      → IsFresh spec s
      → Post Kept Sound (resolve_or_decide pending s)
  unfolding resolve_or_decide
  resolve_or_decide-IsSound none s f = decide-IsSound s f
  resolve_or_decide-IsSound (some name) s f =
      elim (name == "")
        as (λ b. Post Kept Sound ((if b then decide else resolve_pending_request name) s)) [
          | true ↦ decide-IsSound s f
          | false ↦ resolve_pending_request-IsSound spec name s f.sound
        ]

  -- A pass over a publication whose host owns the key, from a state where no CSR was asked for yet,
  -- is safe whether it returns or raises. Every call for a CSR comes after a stored time of signing
  -- and is the only one of the pass, every imported certificate can be parsed and covers every name
  -- of the publication, and every request is created after its name was stored.
  pub reconcile_host_keyed-IsSound :
      (s : State) → IsFresh spec s → Post Kept Sound (reconcile_host_keyed s)
  unfolding reconcile_host_keyed
  reconcile_host_keyed-IsSound s f = Post-get_publication _ _ _ s (
      Post-bind Fresh _ _ _ _ s
        (first-Fresh _ ((Keeps-perform (IsFresh-Stable spec) builds_provisioner _ tt).at s f))
        (λ _ t g. resolve_or_decide-IsSound s.publication.status.pending_request_name t g))
