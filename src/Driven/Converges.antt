-- ===== src/Driven/Converges.antt =====
-- The passes over a host that is reached by SSH: what was installed is not installed again.
use cert_publisher.Prelude.{
  ℕ, suc, String, Bool, true, false, Option, none, some, ◌≡◌, List, [], ◌∷◌, ap, ◌∙◌, arith,
  if◌then◌else◌, subst,
}
use cert_publisher.Resources.{Bytes}
use cert_publisher.Effects.{
  World, Call, checks_current, installs, History, State, Exception, Result, ok, raised,
  builds_provisioner, reads_publication, reads_certificate, creates_certificate,
  patches_certificate, reads_request, creates_request, deletes_request, patches_status,
  reads_secret, posts_event, reads_installed, generates_csr, imports,
}
use cert_publisher.Effects.Hoare.{Post, Post-bind, Post-perform, Post-lift, Post-get_publication}
use cert_publisher.Utils.{sha256_fingerprint}
use cert_publisher.Reconcile.Keeps.{Stable, IsHarmless, Keeps-perform}
use cert_publisher.Reconcile.SecretKeyed.{publish, deliver}
use cert_publisher.Reconcile.SecretKeyed.Safety.{Keeps-report}
use cert_publisher.Provisioners.Trace.{pure, ◌>>=◌}
use cert_publisher.Provisioners.Trace.Triple.{Triple, Triple-bind, Triple-pure, Triple-map, Ended}
use cert_publisher.Provisioners.Trace.Keeps.{Keeps, Keeps-bind, Keeps-pure, kept}
use cert_publisher.Provisioners.Ssh.{Outside, Ssh, Wire, is_current, install}
use cert_publisher.Provisioners.Ssh.Published.{IsFaithful}
use cert_publisher.Provisioners.Ssh.Stays.{Holds, is_current-Holds, is_current-finds}
use cert_publisher.Driven.{Provisioner, advance, replay, drive}

-- `SSHProvisioner` as a provisioner: it has no `pending_warning`.
abbrev pub by_ssh : ⦃w : World⦄ → ⦃o : Outside⦄ → Ssh → Provisioner
by_ssh h = record {
  Wire = Wire;
  is_current = λ cert_pem. (is_current h cert_pem >>= λ b. pure (b, none));
  install = install h;
}

abbrev pub is_install : Call → Bool
is_install (installs cert_pem key_pem) = true
is_install _ = false

-- The calls of `install`.
unfoldable pub installs_in : History → ℕ
installs_in [] = 0
installs_in (e ∷ h) = let rest = installs_in h in if is_install e.call then suc rest else rest

pub harmless_count : (c : Call) → IsHarmless c → is_install c ≡ false
harmless_count c i = ground (arith, i)

pub value_ended :
    {A : Type 0} (Q : A → List Wire → Type 0) (R : Exception → List Wire → Type 0)
    (r : Result A × List Wire) (a : A)
    → Ended Q R r
    → r.0 ≡ ok a
    → Q a r.1
value_ended {A = A} Q R (ok b, u) a q e = subst (λ x. Q x u) (injected e) q
  where
    injected : ◌≡◌ {A = Result A} (ok b) (ok a) → b ≡ a
    injected d = cc
value_ended {A = A} Q R (raised x, u) a q e = absurd (unwanted e)
  where
    unwanted : ◌≡◌ {A = Result A} (raised x) (ok a) → ⊥
    unwanted d = cc

module _ ⦃w : World⦄ ⦃o : Outside⦄ (h : Ssh) (cert_pem : Bytes) where
  -- `n` installations were made, and the host's file holds the certificate.
  abbrev pub IsSettled : ℕ → State → Type 0
  IsSettled n s = (installs_in s.history ≡ n) × Holds h cert_pem (replay (by_ssh h) s.history)

  check-Holds : (other : Bytes) → Keeps (Holds h cert_pem) ((by_ssh h).is_current other)
  check-Holds other = Keeps-bind _ _ _ (is_current-Holds h cert_pem other) (λ b. Keeps-pure _ _)

  advance-Holds :
      (c : Call) (t : List Wire)
      → IsHarmless c
      → Holds h cert_pem t
      → Holds h cert_pem (advance (by_ssh h) c t)
  unfolding advance
  advance-Holds (checks_current other) t i p = kept _ _ t (check-Holds other) p
  advance-Holds (installs c k) t i p = absurd i
  advance-Holds (generates_csr c k) t i p = absurd i
  advance-Holds (imports c) t i p = absurd i
  advance-Holds (creates_request n b) t i p = absurd i
  advance-Holds (reads_publication n m) t i p = p
  advance-Holds (reads_certificate n m) t i p = p
  advance-Holds (creates_certificate n b) t i p = p
  advance-Holds (patches_certificate n m f) t i p = p
  advance-Holds (reads_request n m) t i p = p
  advance-Holds (deletes_request n m) t i p = p
  advance-Holds (patches_status n m f) t i p = p
  advance-Holds (reads_secret n m) t i p = p
  advance-Holds (posts_event n e) t i p = p
  advance-Holds builds_provisioner t i p = p
  advance-Holds reads_installed t i p = p

  pub IsSettled-Stable : (n : ℕ) → Stable (IsSettled n)
  unfolding installs_in replay
  IsSettled-Stable n = record {
    read = λ s m p. p;
    call = λ c b s i p. (
      ap (λ q. if q then suc (installs_in s.history) else installs_in s.history)
            (harmless_count c i)
          ∙ p.0,
      advance-Holds c _ i p.1,
    );
    write = λ s status p. p;
  }

  module _ (faithful : IsFaithful o) where
    check-finds :
        (t : List Wire)
        → Holds h cert_pem t
        → Triple t ((by_ssh h).is_current cert_pem) (λ x u. x.0 ≡ true) (λ e u. Unit)
    check-finds t p =
        Triple-bind (λ b u. (b ≡ true) × Holds h cert_pem u) _ _ t _ _
          (Triple-map t _ (is_current-finds h cert_pem faithful t p) (λ b u q. q) (λ e u q. tt))
          (λ b u q. Triple-pure _ _ u _ q.0)

    publish-IsSettled :
        (n : ℕ) (current : Bool × Option String) (fingerprint : String) (key_pem : Bytes)
        (s : State)
        → current.0 ≡ true
        → IsSettled n s
        → Post
            (λ _ t. IsSettled n t)
            (λ _ t. IsSettled n t)
            (publish ⦃w = drive (by_ssh h) w⦄ current fingerprint cert_pem key_pem s)
    unfolding publish
    publish-IsSettled n (true, warning) fingerprint key_pem s e p =
        (Keeps-report ⦃w = drive (by_ssh h) w⦄ (IsSettled-Stable n) _ _).at s p
    publish-IsSettled n (false, warning) fingerprint key_pem s e p = absurd (unwanted e)
      where
        unwanted : false ≡ true → ⊥
        unwanted d = cc

    pub deliver-IsSettled :
        (n : ℕ) (key_pem : Bytes) (s : State)
        → IsSettled n s
        → Post
            (λ _ t. IsSettled n t)
            (λ _ t. IsSettled n t)
            (deliver ⦃w = drive (by_ssh h) w⦄ (some (cert_pem, key_pem)) s)
    unfolding deliver
    deliver-IsSettled n key_pem s p =
        let st = IsSettled-Stable n in
        Post-get_publication _ _ _ s (
          Post-lift _ _ (sha256_fingerprint ⦃w = drive (by_ssh h) w⦄ cert_pem) _ s
            (λ fingerprint e.
              Post-bind (λ _ t. IsSettled n t) _ _ _ _ s
                ((Keeps-perform st builds_provisioner _ tt).at s p)
                (λ _ t q.
                  Post-bind (λ current u. (current.0 ≡ true) × IsSettled n u) _ _ _ _ t
                    (Post-perform _ _ _ _ t
                      (λ a d. (
                        value_ended (λ x u. x.0 ≡ true) (λ e u. Unit) _ a
                            (check-finds (replay (by_ssh h) t.history) q.1).ended d,
                        st.call (checks_current cert_pem) true t tt q,
                      ))
                      (λ x. st.call (checks_current cert_pem) false t tt q))
                    (λ current u r. publish-IsSettled n current fingerprint key_pem u r.0 r.1)))
            (λ e. p))
