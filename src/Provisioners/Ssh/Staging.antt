-- ===== src/Provisioners/Ssh/Staging.antt =====
-- In which order `install` works.
use cert_publisher.Prelude.{
  ℕ, ◌%◌, String, Option, none, some, ◌≡◌, refl, List, [], ◌∷◌, nat_eq, arith, ◌∙◌, ap, true,
}
use cert_publisher.Resources.{Bytes}
use cert_publisher.Effects.{ok, World}
use cert_publisher.Provisioners.Trace.Triple.{
  Triple, Triple-bind, Triple-pure, Triple-raise, Triple-lift, Triple-ask, Triple-finally,
  Triple-if, Triple-map,
}
use cert_publisher.Provisioners.Ssh.{
  Outside, Ssh, Wire, writes, chmods, closes_sftp, runs, closes, connect, connect_with, install,
  deliver, put_files, put, run_script, check_status, truthy,
}

module _ (h : Ssh) (cert_pem key_pem : Bytes) where
  -- Both files are written with their modes set, and the file session is closed.
  abbrev pub HasFiles : List Wire → Type 0
  HasFiles t =
      (earlier : List Wire) × (t
        ≡ closes_sftp
          ∷ chmods h.key_path (h.key_mode % 4096) (ok tt)
          ∷ writes h.key_path key_pem (ok tt)
          ∷ chmods h.cert_path (h.cert_mode % 4096) (ok tt)
          ∷ writes h.cert_path cert_pem (ok tt)
          ∷ earlier)

  -- A script runs only right after that.
  abbrev pub IsStaged : List Wire → Type 0
  IsStaged [] = Unit
  IsStaged (runs script r ∷ t) = HasFiles t × IsStaged t
  IsStaged (_ ∷ t) = IsStaged t

  -- The files are there, the script, if one is set, has exited with 0, and the connection is closed.
  abbrev pub IsDone : Option String → List Wire → Type 0
  IsDone none u = (t : List Wire) × (u ≡ closes ∷ t) × HasFiles t
  IsDone (some script) u = (t : List Wire) × (u ≡ closes ∷ runs script (ok 0) ∷ t) × HasFiles t

  abbrev IsRun : Option String → List Wire → Type 0
  IsRun none t = HasFiles t
  IsRun (some script) u = (t : List Wire) × (u ≡ runs script (ok 0) ∷ t) × HasFiles t

  module _ ⦃w : World⦄ ⦃o : Outside⦄ where
    connect-IsStaged :
        (t : List Wire) → IsStaged t → Triple t (connect h) (λ a. IsStaged) (λ e. IsStaged)
    unfolding connect connect_with
    connect-IsStaged t p =
        Triple-bind (λ login. IsStaged) _ _ t _ _ (Triple-lift _ _ t _ (λ a e. p) (λ x e. p))
          (λ login u q. Triple-ask _ _ u _ _ (λ a. q) (λ e. q))

    put_files-IsStaged :
        (t : List Wire)
        → IsStaged t
        → Triple t
            (put_files h cert_pem key_pem)
            (λ a u. HasFiles (closes_sftp ∷ u) × IsStaged u)
            (λ e. IsStaged)
    unfolding put_files put
    put_files-IsStaged t p =
        Triple-bind
          (λ a u.
            (u
              ≡ chmods h.cert_path (h.cert_mode % 4096) (ok tt)
                ∷ writes h.cert_path cert_pem (ok tt)
                ∷ t))
          _ _ t _ _
          (Triple-bind (λ a u. u ≡ writes h.cert_path cert_pem (ok tt) ∷ t) _ _ t _ _
            (Triple-ask _ _ t _ _ (λ a. refl) (λ e. p))
            (λ a u e. Triple-ask _ _ u _ _ (λ b. rw e refl) (λ x. rw e p)))
          (λ a u e.
            Triple-bind (λ b v. v ≡ writes h.key_path key_pem (ok tt) ∷ u) _ _ u _ _
              (Triple-ask _ _ u _ _ (λ b. refl) (λ x. rw e p))
              (λ b v d. Triple-ask _ _ v _ _ (λ c. rw (d, e) ((t, refl), p)) (λ x. rw (d, e) p)))

    run_script-IsStaged :
        (script : Option String) (t : List Wire)
        → HasFiles t
        → IsStaged t
        → Triple t (run_script script) (λ a u. IsRun script u × IsStaged u) (λ e. IsStaged)
    unfolding run_script check_status
    run_script-IsStaged none t f p = Triple-pure _ _ t _ (f, p)
    run_script-IsStaged (some script) t f p =
        Triple-bind (λ rc u. u ≡ runs script (ok rc) ∷ t) _ _ t _ _
          (Triple-ask _ _ t _ _ (λ rc. refl) (λ e. (f, p)))
          (λ rc u e.
            Triple-if _ _ u _ _ _ (λ b. Triple-pure _ _ u _ ((t, exited rc u e b, f), rw e (f, p)))
              (λ b.
                Triple-bind (λ err v. IsStaged v) _ _ u _ _
                  (Triple-ask _ _ u _ _ (λ x. rw e (f, p)) (λ x. rw e (f, p)))
                  (λ err v q. Triple-raise _ _ v _ q)))
      where
        exited :
            (rc : ℕ) (u : List Wire)
            → u ≡ runs script (ok rc) ∷ t
            → nat_eq rc 0 ≡ true
            → u ≡ runs script (ok 0) ∷ t
        exited rc u e b = e ∙ ap (λ n. runs script (ok n) ∷ t) (ground arith)

    IsDone-IsRun :
        (script : Option String) (u : List Wire) → IsRun script u → IsDone script (closes ∷ u)
    IsDone-IsRun none u f = (u, refl, f)
    IsDone-IsRun (some script) u (t, e, f) = (t, ap (λ v. closes ∷ v) e, f)

    -- `install` runs the script only when both files are written and their modes are set, and it returns only when the
    -- script, if one is set, has exited with 0; the connection is then closed. This holds from any trail on which it held before.
    pub install-IsStaged :
        (t : List Wire)
        → IsStaged t
        → Triple t
            (install h cert_pem key_pem)
            (λ a u. IsDone (truthy h.post_install_script) u × IsStaged u)
            (λ e. IsStaged)
    unfolding install deliver
    install-IsStaged t p =
        Triple-bind (λ a. IsStaged) _ _ t _ _ (connect-IsStaged t p)
          (λ a u q. Triple-finally _ _ u closes _ (
            Triple-bind (λ b. IsStaged) _ _ u _ _ (Triple-ask _ _ u _ _ (λ b. q) (λ e. q))
              (λ b v r.
                Triple-bind (λ c x. HasFiles x × IsStaged x) _ _ v _ _
                  (Triple-finally _ _ v closes_sftp _ (put_files-IsStaged v r))
                  (λ c x y.
                    Triple-map x _ (run_script-IsStaged (truthy h.post_install_script) x y.0 y.1)
                      (λ d z g. (IsDone-IsRun _ z g.0, g.1)) (λ d z g. g)))))
