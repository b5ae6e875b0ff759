-- ===== src/Reconcile/Signing/Rounds.antt =====
-- The order of the writes in a signing round.
use cert_publisher.Prelude.{String, ◌≡◌, refl, ◌∙◌, Bool, true, false, some, List, subst}
use cert_publisher.Prelude.Keys.{self_eq}
use cert_publisher.Prelude.Int.{ℤ}
use cert_publisher.Resources.{Bytes, Publication, Spec, StatusPatch, set_to}
use cert_publisher.Effects.{
  Exception, World, Body, generates_csr, creates_request, reads_request, State,
}
use cert_publisher.Effects.Hoare.{
  Post, called, Post-lift, Post-get_publication, Post-map, Post-bind, Post-perform, Post-try_except,
}
use cert_publisher.Kube.{create_certificate_request}
use cert_publisher.Certmanager.{build_certificate_request_body}
use cert_publisher.Certmanager.Requests.{build_certificate_request_body-name}
use cert_publisher.Status.{Options, set_status, pending}
use cert_publisher.Status.Outcome.{IsPatch, sent, IsStamped}
use cert_publisher.Reconcile.Keeps.{
  Stable, Keeps, keeps_rules, Keeps-perform, Keeps-pure, Keeps-bind, Keeps-raise, Keeps-if,
}
use cert_publisher.Reconcile.Renewal.Cooldown.{Keeps-signing_cooldown_remaining}
use cert_publisher.Reconcile.Policy.{
  any_event, stores_stamp, stores_name, IsSound, IsFresh, IsSound-Stable, IsFresh-Stable,
  set_status-recorded,
}
use cert_publisher.Reconcile.Signing.{
  common_name_of, request_name, generate, opening_options, opening_message, submitting_options,
  submit, start_signing, restart_signing, retry_time,
}

module _ ⦃w : World⦄ where
  pub Keeps-retry_time : {P : State → Type 0} → Stable P → (delay : ℤ) → Keeps P (retry_time delay)
  unfolding retry_time
  Keeps-retry_time st delay = search keeps_rules

  pub Keeps-restart_signing :
      {P : State → Type 0}
      → Stable P
      → (message reason : String) → Keeps P (restart_signing message reason)
  unfolding restart_signing
  Keeps-restart_signing st message reason =
      search (keeps_rules, Keeps-signing_cooldown_remaining, Keeps-retry_time) depth 12

  stamp_stored :
      (p : Publication) (phase message : String) (o : Options) (s : State) (patch : StatusPatch)
      → o.mark_signing ≡ true
      → IsPatch p phase message o patch
      → stores_stamp (sent s patch true) ≡ true
  unfolding stores_stamp
  stamp_stored p phase message o s patch m i =
      let (t, e) = subst (λ b. IsStamped b patch.last_signing_time) m i.signing_at in simp e

  name_stored :
      (p : Publication) (phase message name : String) (o : Options) (s : State)
      (patch : StatusPatch)
      → o.pending_request ≡ set_to (some name)
      → IsPatch p phase message o patch
      → stores_name name (sent s patch true) ≡ true
  unfolding stores_name
  name_stored p phase message name o s patch m i = simp (i.pending_eq ∙ m) (self_eq name)

  module _ (spec : Spec) where
    abbrev Sound : Exception → State → Type 0
    Sound e t = IsSound spec t

    -- The time of signing is stored, and no CSR was asked for yet.
    abbrev Stamped : Unit {0} → State → Type 0
    Stamped _ t = IsFresh spec t × (any_event stores_stamp t.history ≡ true)

    generate-IsSound :
        (p : Publication) (s : State)
        → IsFresh spec s
        → any_event stores_stamp s.history ≡ true
        → Post (λ _ t. IsSound spec t) Sound (generate p s)
    unfolding generate
    generate-IsSound p s f h =
        Post-lift _ _ (common_name_of p.spec) _ s
          (λ n _. Post-perform _ _ _ _ s (λ a _. asked true) (λ e. asked false)) (λ e. f.sound)
      where
        asked :
            {n : String} {ns : List String} (b : Bool)
            → IsSound spec (called (generates_csr n ns) b s)
        asked b = record { spec_eq = f.sound.spec_eq; safe = ((h, f.unrotated), f.sound.safe) }

    create-IsSound :
        (namespace : String) (body : Body) (s : State)
        → IsSound spec s
        → any_event (stores_name body.name) s.history ≡ true
        → Post (λ _ t. IsSound spec t) Sound (create_certificate_request namespace body s)
    unfolding create_certificate_request
    create-IsSound namespace body s i h =
        Post-try_except _ _ Sound _ _ s
          (Post-perform _ _ _ _ s (λ a _. asked true) (λ e. asked false))
          (λ e t k.
            (Keeps-if {P = IsSound spec} _ _ _
                (Keeps-bind _ _ (Keeps-perform (IsSound-Stable spec) (reads_request _ _) _ tt)
                  (λ a. Keeps-pure tt))
                (Keeps-raise e)).at
              t k)
      where
        asked : (b : Bool) → IsSound spec (called (creates_request namespace body) b s)
        asked b = record { spec_eq = i.spec_eq; safe = (h, i.safe) }

    submit-IsSound :
        (p : Publication) (reason : String) (still_serving : Bool) (csr_pem : Bytes) (s : State)
        → IsSound spec s
        → Post (λ _ t. IsSound spec t) Sound (submit p reason still_serving csr_pem s)
    unfolding submit
    submit-IsSound p reason still_serving csr_pem s i =
        let name = request_name p csr_pem in
        let o = submitting_options still_serving name in
        let st = IsSound-Stable spec in
        Post-bind (λ _ t. IsSound spec t × (any_event (stores_name name) t.history ≡ true)) _ _ _ _
          s
          (set_status-recorded st (stores_name name) pending _ o s i refl
            (λ patch k. name_stored s.publication pending _ name o s patch refl k))
          (λ _ t (k, h).
            Post-lift _ _ (build_certificate_request_body p name csr_pem) _ t
              (λ body e.
                Post-bind (λ _ u. IsSound spec u) _ _ _ _ t
                  (create-IsSound p.namespace body t k
                    (rw (build_certificate_request_body-name p name csr_pem body e) h))
                  (λ a u j. (Keeps-pure {P = IsSound spec} _).at u j))
              (λ e. k))

    -- A signing round, started with no CSR asked for yet, stores the time of signing before it asks
    -- for the CSR and the name of the request before it creates the request.
    pub start_signing-IsSound :
        (reason : String) (still_serving : Bool) (s : State)
        → IsFresh spec s
        → Post (λ _ t. IsSound spec t) Sound (start_signing reason still_serving s)
    unfolding start_signing
    start_signing-IsSound reason still_serving s f =
        let p : Publication = s.publication in
        let o : Options = opening_options still_serving in
        let m : String = opening_message reason in
        Post-get_publication _ _ _ s (
          Post-bind Stamped _ _ _ _ s
            (Post-map Stamped Sound {Q' = Stamped} {R' = λ _ t. IsFresh spec t}
              (set_status pending m o s)
              (set_status-recorded (IsFresh-Stable spec) stores_stamp pending m o s f refl
                (λ patch i. stamp_stored p pending m o s patch refl i))
              (λ a t h. h) (λ e t h. h.sound))
            (λ _ t (g, h).
              Post-bind (λ _ u. IsSound spec u) _ _ _ _ t (generate-IsSound p t g h)
                (λ csr_pem u i. submit-IsSound p reason still_serving csr_pem u i)))
