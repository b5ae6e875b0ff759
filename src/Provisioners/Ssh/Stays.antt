-- ===== src/Provisioners/Ssh/Stays.antt =====
-- What the checks leave in place, and what they find there.
use cert_publisher.Prelude.{
  String, Bool, true, false, Option, none, some, ◌≡◌, refl, List, ◌∷◌, ◌==◌, ap, ◌∙◌, sym,
}
use cert_publisher.Prelude.Keys.{self_eq}
use cert_publisher.Resources.{Bytes}
use cert_publisher.Effects.{Exception, Result, ok, raised, World}
use cert_publisher.Utils.{sha256_fingerprint}
use cert_publisher.Provisioners.Trace.Triple.{
  Triple, Triple-bind, Triple-pure, Triple-lift, Triple-ask, Triple-answer, Triple-finally,
  Triple-except, Triple-map, Triple-any,
}
use cert_publisher.Provisioners.Trace.Keeps.{
  Keeps, Keeps-bind, Keeps-pure, Keeps-raise, Keeps-if, Keeps-lift, Keeps-ask, Keeps-finally,
  Keeps-except,
}
use cert_publisher.Provisioners.Ssh.{
  Outside, Ssh, Wire, writes, put, put_files, run_script, check_status, deliver, install,
  closes_sftp, closes, connect, connect_with, is_current, existing_cert, read_cert, same_cert,
  compared,
}
use cert_publisher.Provisioners.Ssh.Published.{stored, IsFaithful}

module _ ⦃w : World⦄ ⦃o : Outside⦄ (h : Ssh) (cert_pem : Bytes) where
  -- By the trail, the host's certificate file holds this certificate.
  abbrev pub Holds : List Wire → Type 0
  Holds t = stored h.cert_path t ≡ some cert_pem

  connect-Holds : Keeps Holds (connect h)
  unfolding connect connect_with stored
  connect-Holds = Keeps-bind _ _ _ (Keeps-lift _ _) (λ login. Keeps-ask _ _ _ (λ t r p. p))

  -- No check of any certificate changes what the file holds.
  pub is_current-Holds : (other : Bytes) → Keeps Holds (is_current h other)
  unfolding is_current existing_cert read_cert stored
  is_current-Holds other = Keeps-bind _ _ _ (Keeps-lift _ _) (λ desired.
      Keeps-bind _ _ _ connect-Holds (λ u.
        Keeps-bind _ _ _
          (Keeps-finally _ _ _ (λ t p. p)
            (Keeps-bind _ _ _ (Keeps-ask _ _ _ (λ t r p. p)) (λ v.
              Keeps-finally _ _ _ (λ t p. p)
                (Keeps-except _ _ _ _ (Keeps-pure _ _)
                  (Keeps-bind _ _ _ (Keeps-ask _ _ _ (λ t r p. p)) (λ b. Keeps-pure _ _))))))
          (λ e. Keeps-lift _ _)))

  module _ (faithful : IsFaithful o) where
    read_cert-Holds :
        (t : List Wire)
        → Holds t
        → Triple t (read_cert h) (λ x u. (x ≡ some cert_pem) × Holds u) (λ e u. ⊥)
    unfolding read_cert stored
    read_cert-Holds t p =
        Triple-except _ _ t _ _ _
          (Triple-bind (λ b u. (b ≡ cert_pem) × Holds u) _ _ t _ _
            (Triple-answer _ _ t _ _
              (λ b e. (same b (sym e ∙ faithful t h.cert_path cert_pem p), p))
              (λ x e. other x (sym e ∙ faithful t h.cert_path cert_pem p)))
            (λ b u q. Triple-pure _ _ u _ (ap some q.0, q.1)))
          (λ e u z. absurd z)
      where
        same : (b : Bytes) → ◌≡◌ {A = Result Bytes} (ok b) (ok cert_pem) → b ≡ cert_pem
        same b e = cc

        other : (x : Exception) → ◌≡◌ {A = Result Bytes} (raised x) (ok cert_pem) → ⊥
        other x e = cc

    existing_cert-Holds :
        (t : List Wire)
        → Holds t
        → Triple t (existing_cert h) (λ x u. (x ≡ some cert_pem) × Holds u) (λ e. Holds)
    unfolding existing_cert stored
    existing_cert-Holds t p =
        Triple-bind (λ a. Holds) _ _ t _ _ (Triple-ask _ _ t _ _ (λ a. p) (λ e. p))
          (λ a u q.
            Triple-finally _ _ u _ _
              (Triple-map u _ (read_cert-Holds u q) (λ x v r. r) (λ e v z. absurd z)))

    found :
        (f : String) (x : Option Bytes) (b : Bool)
        → sha256_fingerprint cert_pem ≡ ok f
        → x ≡ some cert_pem
        → same_cert f x ≡ ok b
        → b ≡ true
    unfolding same_cert
    found f x b e d c =
        settle
          (sym c ∙ ap (same_cert f) d ∙ ap (compared f) e ∙ (unfold compared in ap ok (self_eq f)))
      where
        settle : ◌≡◌ {A = Result Bool} (ok b) (ok true) → b ≡ true
        settle e = cc

    -- A check that returns finds the certificate that the file holds.
    pub is_current-finds :
        (t : List Wire)
        → Holds t
        → Triple t (is_current h cert_pem) (λ b u. (b ≡ true) × Holds u) (λ e. Holds)
    unfolding is_current stored
    is_current-finds t p =
        Triple-bind (λ f u. (sha256_fingerprint cert_pem ≡ ok f) × Holds u) _ _ t _ _
          (Triple-lift _ _ t _ (λ f e. (e, p)) (λ x e. p))
          (λ f u q.
            Triple-bind (λ a. Holds) _ _ u _ _ (connect-Holds.run u q.1)
              (λ a v r.
                Triple-bind (λ x z. (x ≡ some cert_pem) × Holds z) _ _ v _ _
                  (Triple-finally _ _ v closes _ (existing_cert-Holds v r))
                  (λ x z c.
                    Triple-lift _ _ z _ (λ b e. (found f x b q.0 c.0 e, c.1)) (λ y e. c.1))))

module _ ⦃w : World⦄ ⦃o : Outside⦄ (h : Ssh) (cert_pem key_pem : Bytes)
    (apart : (h.key_path == h.cert_path) ≡ false) where
  put_key-Holds : Keeps (Holds h cert_pem) (put h.key_path key_pem h.key_mode)
  unfolding put stored
  put_key-Holds =
      Keeps-bind _ _ _ (Keeps-ask _ _ _ (λ t r p. written t r p))
        (λ u. Keeps-ask _ _ _ (λ t r p. p))
    where
      written :
          (t : List Wire) (r : Result (Unit {0}))
          → Holds h cert_pem t
          → Holds h cert_pem (writes h.key_path key_pem r ∷ t)
      written t (ok x) p = simp apart p
      written t (raised e) p = simp apart p

  run_script-Holds : (script : Option String) → Keeps (Holds h cert_pem) (run_script script)
  unfolding run_script check_status stored
  run_script-Holds none = Keeps-pure _ _
  run_script-Holds (some script) = Keeps-bind _ _ _ (Keeps-ask _ _ _ (λ t r p. p)) (λ rc.
      Keeps-if _ _ _ _ (Keeps-pure _ _)
        (Keeps-bind _ _ _ (Keeps-ask _ _ _ (λ t r p. p)) (λ e. Keeps-raise _ _)))

  put_cert-Holds :
      (t : List Wire)
      → Triple t (put h.cert_path cert_pem h.cert_mode) (λ a. Holds h cert_pem) (λ e u. Unit)
  unfolding put stored
  put_cert-Holds t =
      Triple-bind (λ a. Holds h cert_pem) _ _ t _ _
        (Triple-ask _ _ t _ _ (λ a. rw (self_eq h.cert_path) refl) (λ e. tt))
        (λ a u q. Triple-ask _ _ u _ _ (λ b. q) (λ e. tt))

  put_files-Holds :
      (t : List Wire)
      → Triple t (put_files h cert_pem key_pem) (λ a. Holds h cert_pem) (λ e u. Unit)
  unfolding put_files
  put_files-Holds t =
      Triple-bind (λ a. Holds h cert_pem) _ _ t _ _ (put_cert-Holds t)
        (λ a u q. Triple-map u _ (put_key-Holds.run u q) (λ b v r. r) (λ e v r. tt))

  -- After an installation that returns, the host's file holds the certificate.
  pub install-Holds :
      (t : List Wire) → Triple t (install h cert_pem key_pem) (λ a. Holds h cert_pem) (λ e u. Unit)
  unfolding install deliver stored
  install-Holds t =
      Triple-bind (λ a u. Unit) _ _ t _ _ (Triple-any t _)
        (λ a u q. Triple-finally _ _ u closes _ (
          Triple-bind (λ b v. Unit) _ _ u _ _ (Triple-any u _)
            (λ b v r.
              Triple-bind (λ c. Holds h cert_pem) _ _ v _ _
                (Triple-finally _ _ v closes_sftp _ (put_files-Holds v))
                (λ c x y.
                  Triple-map x _ ((run_script-Holds _).run x y) (λ d z g. g) (λ e z g. tt)))))
