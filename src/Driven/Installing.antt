-- ===== src/Driven/Installing.antt =====
-- The passes over a host that is reached by SSH: what is issued gets installed.
use cert_publisher.Prelude.{
  suc, String, Bool, true, false, Option, none, some, ◌≡◌, ◌⊎◌, refl, [], ◌∷◌, ◌++◌, ◌==◌, ap, ◌∙◌,
  sym, inl, inr, if◌then◌else◌,
}
use cert_publisher.Resources.{Bytes}
use cert_publisher.Effects.{
  World, checks_current, Event, History, State, ok, builds_provisioner, pure, ◌>>◌,
}
use cert_publisher.Effects.Hoare.{
  Post, Post-bind, Post-map, Post-perform, Post-lift, Post-get_publication,
}
use cert_publisher.Utils.{sha256_fingerprint}
use cert_publisher.Status.{Options, set_status}
use cert_publisher.Reconcile.Keeps.{Stable, Keeps-set_status}
use cert_publisher.Reconcile.Renewal.{Requeue, awaiting_issuance_requeue}
use cert_publisher.Reconcile.SecretKeyed.{publish, deliver, report}
use cert_publisher.Provisioners.Ssh.{Outside, Ssh}
use cert_publisher.Provisioners.Ssh.Stays.{Holds, install-Holds}
use cert_publisher.Driven.{replay, drive, advance}
use cert_publisher.Driven.Converges.{
  by_ssh, installs_in, harmless_count, value_ended, IsSettled, IsSettled-Stable,
}

-- The calls since `start`, none of which was an installation.
pub record IsUntouched (start : History) (s : State) : Type 0 where
  pub counted : installs_in s.history ≡ installs_in start
  pub since : History
  pub extended : s.history ≡ since ++ start

pub IsUntouched-Stable : (start : History) → Stable (IsUntouched start)
unfolding installs_in
IsUntouched-Stable start = record {
  read = λ s m p. record { counted = p.counted; since = p.since; extended = p.extended };
  call = λ c b s i p. record {
    counted =
        ap (λ q. if q then suc (installs_in s.history) else installs_in s.history)
          (harmless_count c i)
        ∙ p.counted;
    since = record { call = c; succeeded = b } ∷ p.since;
    extended = ap (λ h. record { call = c; succeeded = b } ∷ h) p.extended;
  };
  write = λ s status p. record { counted = p.counted; since = p.since; extended = p.extended };
}

-- A pass that ends by setting the status.
pub concluded :
    ⦃w : World⦄
    → (P : State → Type 0) (Q : Requeue → State → Type 0) (R : State → Type 0) → Stable P
    → (requeue : Requeue) → ((s : State) → P s → Q requeue s)
    → ((s : State) → P s → R s)
    → (phase message : String) (options : Options) (s : State) → P s
    → Post Q (λ _ t. R t) ((do set_status phase message options; pure requeue) s)
unfolding pure
concluded P Q R st requeue pq pr phase message options s p =
    Post-bind (λ _ t. P t) Q (λ _ t. R t) _ _ s
      (Post-map (λ _ t. P t) (λ _ t. R t) {Q' = λ _ t. P t} {R' = λ _ t. P t}
        (set_status phase message options s) ((Keeps-set_status st phase message options).at s p)
        (λ a t q. q) (λ e t. pr t))
      (λ a t. pq t)

module _ ⦃w : World⦄ ⦃o : Outside⦄ (h : Ssh) (cert_pem : Bytes) (start : History) where
  -- The host was asked since `start`, and answered that it has the certificate.
  pub record WasCurrent (t : History) : Type 0 where
    pub since : History
    pub later : History
    pub asked :
        t ≡ later ++ record { call = checks_current cert_pem; succeeded = true } ∷ since ++ start
    pub warning : Option String
    pub answered :
        ((by_ssh h).is_current cert_pem (replay (by_ssh h) (since ++ start))).0 ≡ ok (true, warning)

  -- What a pass has come to: it waits and has installed nothing, or has installed nothing because the host answered that it has the certificate, or has
  -- installed once and the host's file holds the certificate.
  abbrev pub IsInstalled : Requeue → State → Type 0
  IsInstalled requeue t =
      ((requeue ≡ some awaiting_issuance_requeue) × (installs_in t.history ≡ installs_in start))
      ⊎ (((requeue ≡ none) × (installs_in t.history ≡ installs_in start) × WasCurrent t.history)
          ⊎ ((requeue ≡ none)
              × (installs_in t.history ≡ suc (installs_in start))
              × Holds h cert_pem (replay (by_ssh h) t.history)))

  IsCurrent : State → Type 0
  IsCurrent s = (installs_in s.history ≡ installs_in start) × WasCurrent s.history

  WasCurrent-∷ : (e : Event) (t : History) → WasCurrent t → WasCurrent (e ∷ t)
  WasCurrent-∷ e t c = record {
    since = c.since;
    later = e ∷ c.later;
    asked = ap (λ x. e ∷ x) c.asked;
    warning = c.warning;
    answered = c.answered;
  }

  IsCurrent-Stable : Stable IsCurrent
  unfolding installs_in IsCurrent
  IsCurrent-Stable = record {
    read = λ s m p. p;
    call = λ c b s i p. (
      ap (λ q. if q then suc (installs_in s.history) else installs_in s.history)
            (harmless_count c i)
          ∙ p.0,
      WasCurrent-∷ _ _ p.1,
    );
    write = λ s status p. p;
  }

  module _ (apart : (h.key_path == h.cert_path) ≡ false) where
    publish-Installs :
        (current : Bool × Option String) (fingerprint : String) (key_pem : Bytes) (s : State)
        → IsUntouched start s
        → (current.0 ≡ true → WasCurrent s.history)
        → Post IsInstalled
            (λ _ t. Unit)
            (publish ⦃w = drive (by_ssh h) w⦄ current fingerprint cert_pem key_pem s)
    unfolding publish replay advance report installs_in IsCurrent
    publish-Installs (true, warning) fingerprint key_pem s p c =
        concluded ⦃w = drive (by_ssh h) w⦄ IsCurrent IsInstalled (λ t. Unit) IsCurrent-Stable none
          (λ t q. inr (inl (refl, q.0, q.1))) (λ t q. tt) _ _ _ s (p.counted, c refl)
    publish-Installs (false, warning) fingerprint key_pem s p c =
        Post-bind (λ _ t. IsSettled h cert_pem (suc (installs_in start)) t) _ _ _ _ s
          (Post-perform _ _ _ _ s
            (λ a e. (
              ap suc p.counted,
              value_ended (λ x u. Holds h cert_pem u) (λ x u. Unit) _ a
                  (install-Holds h cert_pem key_pem apart (replay (by_ssh h) s.history)).ended e,
            ))
            (λ e. tt))
          (λ _ t q.
            concluded ⦃w = drive (by_ssh h) w⦄ (IsSettled h cert_pem (suc (installs_in start)))
              IsInstalled (λ u. Unit) (IsSettled-Stable h cert_pem (suc (installs_in start))) none
              (λ u r. inr (inr (refl, r.0, r.1))) (λ u r. tt) _ _ _ t q)

    asked_now :
        (s : State) (a : Bool × Option String)
        → IsUntouched start s
        → ((by_ssh h).is_current cert_pem (replay (by_ssh h) s.history)).0 ≡ ok a
        → a.0 ≡ true
        → WasCurrent (record { call = checks_current cert_pem; succeeded = true } ∷ s.history)
    asked_now s (b, warning) p d e = record {
      since = p.since;
      later = [];
      asked = ap (λ x. record { call = checks_current cert_pem; succeeded = true } ∷ x) p.extended;
      warning = warning;
      answered =
          ap (λ x. ((by_ssh h).is_current cert_pem (replay (by_ssh h) x)).0) (sym p.extended)
          ∙ d
          ∙ ap (λ x. ok (x, warning)) e;
    }

    pub deliver-Installs :
        (key_pem : Bytes) (s : State)
        → IsUntouched start s
        → Post IsInstalled
            (λ _ t. Unit)
            (deliver ⦃w = drive (by_ssh h) w⦄ (some (cert_pem, key_pem)) s)
    unfolding deliver
    deliver-Installs key_pem s p =
        let st = IsUntouched-Stable start in
        Post-get_publication _ _ _ s (
          Post-lift _ _ (sha256_fingerprint ⦃w = drive (by_ssh h) w⦄ cert_pem) _ s
            (λ fingerprint e.
              Post-bind (λ _ t. IsUntouched start t) _ _ _ _ s
                (Post-perform _ _ _ _ s (λ a d. st.call builds_provisioner true s tt p) (λ x. tt))
                (λ _ t q.
                  Post-bind
                    (λ current u. IsUntouched start u × (current.0 ≡ true → WasCurrent u.history)) _
                    _ _ _ t
                    (Post-perform _ _ _ _ t
                      (λ a d. (st.call (checks_current cert_pem) true t tt q, asked_now t a q d))
                      (λ x. tt))
                    (λ current u r. publish-Installs current fingerprint key_pem u r.0 r.1)))
            (λ e. tt))
