-- ===== src/Provisioners/Idrac8/Subject.antt =====
-- The CSR is asked for only when the host has just shown the subject that it is to carry.
use cert_publisher.Prelude.{
  ℕ, zero, suc, String, ◌≡◌, refl, ap, ◌∙◌, subst, Bool, true, false, Option, none, some, List, [],
  ◌∷◌, ◌==◌, arith, eq_iff, leb,
}
use cert_publisher.Prelude.Keys.{get}
use cert_publisher.Prelude.Text.{concat}
use cert_publisher.Effects.{Result, ok, raised}
use cert_publisher.Provisioners.Xml.{Element, iter}
use cert_publisher.Provisioners.Dialogue.{
  Reply, Post, handshakes, posts, sleeps, Trail, Outside, Line, Talk, raise, lift, ◌>>=◌, continue,
  uuid, sleep, ◌>>◌,
}
use cert_publisher.Provisioners.Dialogue.Keeps.{
  Keeps, Keeps-bind, Keeps-pure, Keeps-raise, Keeps-lift, Keeps-if,
}
use cert_publisher.Provisioners.Dialogue.Ends.{
  Returns, Ends, Ends-bind, Ends-pure, Ends-raise, Ends-lift, Ends-any, Ends-if,
}
use cert_publisher.Provisioners.Dialogue.Leads.{Leads, Leads-then, Leads-before}
use cert_publisher.Provisioners.Wsman.Keeps.{Outlives, invoke-Leads}
use cert_publisher.Provisioners.Idrac8.Keeps.{Spares, current_subject-Keeps, ensure_subject-Keeps}
use cert_publisher.Resources.{Bytes}
use cert_publisher.Provisioners.Wsman.{
  WsmanClient, card_service, post, send, read, get_envelope, instance_fields, judge,
}
use cert_publisher.Provisioners.Idrac8.{
  Idrac8, attribute_class, common_name_attribute, alt_name_attribute, selectors_for, not_applied,
  apply_poll_interval, value_or_blank, current_value, current_subject, is_subject, after_subject,
  poll_subject, apply_csr_subject, ensure_subject, request_csr, generate_csr, connect, connect_with,
  connect_or_raise, authenticated_peer, or_bootstrap, bootstrap, peer_der, comma_joined,
}

module _ ⦃o : Outside⦄ where
  -- The request reads the current value of an attribute, and the answer is this value.
  pub record Reads (c : WsmanClient) (name value : String) (p : Post) : Type 0 where
    pub asked :
        (id : String) × (p.envelope ≡ get_envelope c id attribute_class (selectors_for name))
    pub answered :
        (r : Reply) × (root : Element) × (p.reply ≡ ok r)
        × (judge c o.str p.what r ≡ ok root)
        × (value
            ≡ value_or_blank (get "CurrentValue" (instance_fields attribute_class (iter root) [])))

  -- The last two requests have read this subject.
  abbrev pub Shows : WsmanClient → String × String → Trail → Type 0
  Shows c subject t =
      (p : Post) × (q : Post) × (before : Trail) × (t ≡ posts q ∷ posts p ∷ before)
      × Reads c common_name_attribute (subject.0) p
      × Reads c alt_name_attribute (subject.1) q

  module _ (c : WsmanClient) (name : String) (t : Trail) where
    abbrev Read : String → Trail → Type 0
    Read value t' = (p : Post) × (t' ≡ posts p ∷ t) × Reads c name value p

    abbrev Sent : String → Element → Trail → Type 0
    Sent id root t' =
        (p : Post) × (r : Reply) × (t' ≡ posts p ∷ t)
        × (p.envelope ≡ get_envelope c id attribute_class (selectors_for name))
        × (p.reply ≡ ok r)
        × (judge c o.str p.what r ≡ ok root)

    post_of : String → String → Result Reply → Post
    post_of envelope what x = record {
      pin = c.pin;
      password = c.password;
      what = what;
      envelope = envelope;
      reply = x;
    }

    posted :
        (id envelope what : String) (l : Line)
        → l.trail ≡ t
        → envelope ≡ get_envelope c id attribute_class (selectors_for name)
        → Ends (Sent id) (send c envelope what) l
    unfolding send ◌>>=◌ post post_of
    posted id envelope what l e f = record { ended = from (o.post l.trail c.url envelope) }
      where
        from :
            (x : Result Reply)
            → Returns (Sent id) (
                continue x
                  (λ r. lift (judge c o.str what r))
                  (record l { trail = posts (post_of envelope what x) ∷ l.trail }))
        from (raised x) = tt
        from (ok r) =
            (Ends-lift (Sent id) (judge c o.str what r) _ (λ root j. (
              post_of envelope what (ok r),
              r,
              ap (λ u. posts (post_of envelope what (ok r)) ∷ u) e,
              f,
              refl,
              j,
            ))).ended

    abbrev Fetched : List (String × String) → Trail → Type 0
    Fetched fields t' =
        (id : String) × (root : Element) × Sent id root t'
        × (fields ≡ instance_fields attribute_class (iter root) [])

    read-Fetched :
        (l : Line) → l.trail ≡ t → Ends Fetched (read c attribute_class (selectors_for name)) l
    unfolding read
    read-Fetched l e =
        Ends-bind (λ id t'. t' ≡ t) Fetched uuid _ l (unfold uuid in record { ended = e })
          (λ id l' e'.
            Ends-bind (Sent id) Fetched _ _ l' (posted id _ _ l' e' refl)
              (λ root l'' s. Ends-pure Fetched _ l'' (id, root, s, refl)))

    current_value-Read : (l : Line) → l.trail ≡ t → Ends Read (current_value c name) l
    unfolding current_value
    current_value-Read l e = Ends-bind Fetched Read _ _ l (read-Fetched l e) (λ fields l' f.
        let (id, root, (p, r, e₁, e₂, e₃, e₄), g) = f in
        Ends-pure Read _ l' (
          p,
          e₁,
          record {
            asked = (id, e₂);
            answered = (r, root, e₃, e₄, ap (λ d. value_or_blank (get "CurrentValue" d)) g);
          },
        ))

  module _ (c : WsmanClient) where
    current_subject-Shows : (l : Line) → Ends (Shows c) (current_subject c) l
    unfolding current_subject
    current_subject-Shows l =
        Ends-bind (Read c common_name_attribute l.trail) (Shows c) _ _ l
          (current_value-Read c common_name_attribute l.trail l refl)
          (λ cn l₁ x.
            Ends-bind (Read c alt_name_attribute l₁.trail) (Shows c) _ _ l₁
              (current_value-Read c alt_name_attribute l₁.trail l₁ refl)
              (λ san l₂ y.
                let (p, e, r) = x in
                let (q, f, s) = y in
                Ends-pure (Shows c) _ l₂ (p, q, l.trail, f ∙ ap (λ u. posts q ∷ u) e, r, s)))

    -- What holds behind the steps that make the subject the desired one.
    abbrev Settled : String × String → Option (Unit {0}) → Trail → Type 0
    Settled desired none t = Unit
    Settled desired (some u) t = Shows c desired t

    is_subject-Shows :
        (current desired : String × String) (t : Trail)
        → is_subject current desired ≡ true
        → Shows c current t
        → Shows c desired t
    is_subject-Shows current desired t e s = subst (λ x. Shows c x t) (pair_eq current desired e) s
      where
        pair_eq : (a b : String × String) → is_subject a b ≡ true → a ≡ b
        pair_eq (a, b) (d, f) h =
            ap (λ x. (x, b)) ((eq_iff a d).0 (ground arith))
            ∙ ap (λ x. (d, x)) ((eq_iff b f).0 (ground arith))

    module _ (h : Idrac8) (desired : String × String) where
      after_subject-Settled :
          (deadline : ℕ) (current : String × String) (rest : Talk (Option (Unit {0}))) (l : Line)
          → Shows c current l.trail
          → ((l' : Line) → Ends (Settled desired) rest l')
          → Ends (Settled desired) (after_subject h desired deadline current rest) l
      unfolding after_subject
      after_subject-Settled deadline current rest l s k =
          Ends-if (Settled desired) _ _ _ l
            (λ e. Ends-pure _ _ l (is_subject-Shows current desired l.trail e s))
            (λ e.
              Ends-bind (λ a t. Unit) (Settled desired) _ _ l (Ends-any _ l)
                (λ now l' u.
                  Ends-if (Settled desired) (leb deadline now)
                    (raise (not_applied h desired current)) (sleep apply_poll_interval >> rest) l'
                    (λ d. Ends-raise _ _ l')
                    (λ d.
                      Ends-bind (λ a t. Unit) (Settled desired) _ _ l' (Ends-any _ l')
                        (λ a l'' v. k l''))))

      poll_subject-Settled :
          (deadline fuel : ℕ) (l : Line)
          → Ends (Settled desired) (poll_subject h c desired deadline fuel) l
      unfolding poll_subject
      poll_subject-Settled deadline zero l = Ends-pure _ _ l tt
      poll_subject-Settled deadline (suc fuel) l =
          Ends-bind (Shows c) (Settled desired) _ _ l (current_subject-Shows l) (λ current l' s.
            after_subject-Settled deadline current _ l' s
              (λ l''. poll_subject-Settled deadline fuel l''))

      apply_csr_subject-Settled :
          (fuel : ℕ) (l : Line) → Ends (Settled desired) (apply_csr_subject h c desired fuel) l
      unfolding apply_csr_subject
      apply_csr_subject-Settled fuel l =
          Ends-bind (λ a t. Unit) (Settled desired) _ _ l (Ends-any _ l)
            (λ a l₁ u.
              Ends-bind (λ a t. Unit) (Settled desired) _ _ l₁ (Ends-any _ l₁)
                (λ b l₂ v.
                  Ends-bind (λ a t. Unit) (Settled desired) _ _ l₂ (Ends-any _ l₂)
                    (λ now l₃ w. poll_subject-Settled _ fuel l₃)))

      ensure_subject-Settled :
          (fuel : ℕ) (current : String × String) (l : Line)
          → Shows c current l.trail
          → Ends (Settled desired) (ensure_subject h c desired fuel current) l
      unfolding ensure_subject
      ensure_subject-Settled fuel current l s =
          Ends-if (Settled desired) _ _ _ l
            (λ e. Ends-pure _ _ l (is_subject-Shows current desired l.trail e s))
            (λ e. apply_csr_subject-Settled fuel l)

  -- The request that rotates the host's key.
  abbrev pub csr_call : String
  csr_call = concat (card_service ∷ "." ∷ "GenerateSSLCSR" ∷ [])

  -- Every request for a CSR came right behind two requests that have read the desired subject.
  abbrev pub IsConfirmed : String × String → Trail → Type 0
  IsConfirmed desired [] = Unit
  IsConfirmed desired (posts p ∷ t) =
      ((p.what == csr_call) ≡ true → (c : WsmanClient) × Shows c desired t) × IsConfirmed desired t
  IsConfirmed desired (handshakes trust r ∷ t) = IsConfirmed desired t
  IsConfirmed desired (sleeps n ∷ t) = IsConfirmed desired t

  module _ (desired : String × String) where
    other_call :
        (c : WsmanClient) (what : String)
        → (what == csr_call) ≡ false
        → Outlives (IsConfirmed desired) c what
    other_call c what n envelope r t k = (λ e. absurd (ground arith), k)

    IsConfirmed-Spares : (c : WsmanClient) → Spares (IsConfirmed desired) c
    unfolding concat
    IsConfirmed-Spares c = record {
      reads = other_call c (concat (attribute_class ∷ " Get" ∷ [])) refl;
      sets = other_call c (concat (card_service ∷ "." ∷ "SetAttributes" ∷ [])) refl;
      creates = other_call c (concat (card_service ∷ "." ∷ "CreateTargetedConfigJob" ∷ [])) refl;
      rests = λ n t k. k;
    }

    peer_der-IsConfirmed :
        (h : Idrac8) (verify : Bool) → Keeps (IsConfirmed desired) (peer_der h verify)
    unfolding peer_der
    peer_der-IsConfirmed h verify = record { kept = λ l k. k }

    bootstrap-IsConfirmed :
        (h : Idrac8) (b : Option String) → Keeps (IsConfirmed desired) (bootstrap h b)
    unfolding bootstrap
    bootstrap-IsConfirmed h none = Keeps-raise _ _
    bootstrap-IsConfirmed h (some thumbprint) =
        Keeps-bind _ _ _ (peer_der-IsConfirmed h false) (λ der. Keeps-lift _ _)

    or_bootstrap-IsConfirmed :
        (h : Idrac8) (b : Option Bytes) → Keeps (IsConfirmed desired) (or_bootstrap h b)
    unfolding or_bootstrap
    or_bootstrap-IsConfirmed h (some der) = Keeps-pure _ _
    or_bootstrap-IsConfirmed h none = bootstrap-IsConfirmed h _

    connect-IsConfirmed :
        (h : Idrac8) (p : Option String) → Keeps (IsConfirmed desired) (connect_or_raise h p)
    unfolding connect_or_raise connect_with authenticated_peer
    connect-IsConfirmed h none = Keeps-raise _ _
    connect-IsConfirmed h (some p) = Keeps-if _ _ _ _ (Keeps-raise _ _) (
        Keeps-bind _ _ _
          (Keeps-bind _ _ _ (peer_der-IsConfirmed h true) (λ b. or_bootstrap-IsConfirmed h b))
          (λ der. Keeps-pure _ _))

    request_csr-Leads :
        (h : Idrac8) (c : WsmanClient) (u : Option (Unit {0})) (l : Line)
        → IsConfirmed desired l.trail
        → Settled c desired u l.trail
        → Leads (IsConfirmed desired) (request_csr h c u) l
    unfolding request_csr
    request_csr-Leads h c none l k s = record {
      led = (Keeps-pure (IsConfirmed desired) {A = Option (List (String × String))} none).kept l k;
    }
    request_csr-Leads h c (some u) l k s =
        Leads-before _ _ _ l
          (invoke-Leads (IsConfirmed desired) c card_service "GenerateSSLCSR" [] l k
            (λ envelope r. (λ e. (c, s), k)))
          (λ output. Keeps-pure _ _)

  -- `generate_csr` has the host make a CSR, and so rotate its key, only when the host has just shown
  -- the subject that the CSR is to carry: right before every request for a CSR, the last two requests
  -- have read the common name and the alternative names, and the answers were the desired ones. This
  -- holds however the host answers, and for any fuel of the loop, if it held of the trail before.
  pub generate_csr-IsConfirmed :
      (h : Idrac8) (common_name : String) (dns_names : List String) (fuel : ℕ) (l : Line)
      → IsConfirmed (common_name, comma_joined dns_names) l.trail
      → IsConfirmed
          (common_name, comma_joined dns_names)
          (generate_csr h common_name dns_names fuel l).1.trail
  unfolding generate_csr connect
  generate_csr-IsConfirmed h common_name dns_names fuel l k =
      let d : String × String = (common_name, comma_joined dns_names) in
      (Leads-then (IsConfirmed d) (λ c t. Unit) _ _ l (connect-IsConfirmed d h h.password)
        (Ends-any _ l) k
        (λ c l₁ k₁ u.
          Leads-then (IsConfirmed d) (Shows c) _ _ l₁
            (current_subject-Keeps (IsConfirmed d) c (IsConfirmed-Spares d c).reads)
            (current_subject-Shows c l₁) k₁
            (λ current l₂ k₂ s.
              Leads-then (IsConfirmed d) (Settled c d) _ _ l₂
                (ensure_subject-Keeps (IsConfirmed d) h c (IsConfirmed-Spares d c) d fuel current)
                (ensure_subject-Settled c h d fuel current l₂ s) k₂
                (λ applied l₃ k₃ t.
                  Leads-before (IsConfirmed d) _ _ l₃ (request_csr-Leads d h c applied l₃ k₃ t)
                    (λ output. Keeps-lift _ _))))).led
