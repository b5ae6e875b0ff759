-- ===== src/Provisioners/Ssh/Sessions.antt =====
-- What is opened is closed.
use cert_publisher.Prelude.{ℕ, ◌+◌, suc, String, Option, none, some, ◌≡◌, List, [], ◌∷◌, arith}
use cert_publisher.Resources.{Bytes}
use cert_publisher.Effects.{ok, World}
use cert_publisher.Provisioners.Trace.{Trace, ask, finally}
use cert_publisher.Provisioners.Trace.Triple.{
  Triple, Triple-bind, Triple-lift, Triple-ask, Triple-finally, Triple-map,
}
use cert_publisher.Provisioners.Trace.Keeps.{
  Keeps, Keeps-bind, Keeps-pure, Keeps-raise, Keeps-lift, Keeps-ask, Keeps-except, Keeps-if, kept,
}
use cert_publisher.Provisioners.Ssh.{
  Outside, Ssh, Wire, connects, opens_sftp, closes_sftp, closes, connect, connect_with, install,
  is_current, existing_cert, read_cert, deliver, put_files, put, run_script, check_status,
}

-- The connections that the trail shows to be opened, and those that it shows to be closed.
unfoldable pub opened : List Wire → ℕ
opened [] = 0
opened (connects p l (ok u) ∷ t) = suc (opened t)
opened (_ ∷ t) = opened t

unfoldable pub closed : List Wire → ℕ
closed [] = 0
closed (closes ∷ t) = suc (closed t)
closed (_ ∷ t) = closed t

unfoldable pub opened_files : List Wire → ℕ
opened_files [] = 0
opened_files (opens_sftp (ok u) ∷ t) = suc (opened_files t)
opened_files (_ ∷ t) = opened_files t

unfoldable pub closed_files : List Wire → ℕ
closed_files [] = 0
closed_files (closes_sftp ∷ t) = suc (closed_files t)
closed_files (_ ∷ t) = closed_files t

-- `n` connections and `m` file sessions are open.
abbrev IsOpen : ℕ → ℕ → List Wire → Type 0
IsOpen n m t = (opened t ≡ n + closed t) × (opened_files t ≡ m + closed_files t)

-- None is open.
abbrev pub IsClosed : List Wire → Type 0
IsClosed t = (opened t ≡ closed t) × (opened_files t ≡ closed_files t)

module _ ⦃w : World⦄ ⦃o : Outside⦄ (h : Ssh) where
  connect-IsOpen :
      (t : List Wire) → IsClosed t → Triple t (connect h) (λ a. IsOpen 1 0) (λ e. IsClosed)
  unfolding connect connect_with opened closed opened_files closed_files
  connect-IsOpen t p =
      Triple-bind (λ login. IsClosed) _ _ t _ _ (Triple-lift _ _ t _ (λ a e. p) (λ x e. p))
        (λ login u q. Triple-ask _ _ u _ _ (λ a. (ground arith, ground arith)) (λ e. q))

  put-IsOpen :
      (path : String) (contents : Bytes) (mode : ℕ) → Keeps (IsOpen 1 1) (put path contents mode)
  unfolding put opened closed opened_files closed_files
  put-IsOpen path contents mode =
      Keeps-bind _ _ _ (Keeps-ask _ _ _ (λ t r p. p)) (λ u. Keeps-ask _ _ _ (λ t r p. p))

  read_cert-IsOpen : Keeps (IsOpen 1 1) (read_cert h)
  unfolding read_cert opened closed opened_files closed_files
  read_cert-IsOpen =
      Keeps-except _ _ _ _ (Keeps-pure _ _)
        (Keeps-bind _ _ _ (Keeps-ask _ _ _ (λ t r p. p)) (λ b. Keeps-pure _ _))

  run_script-IsOpen : (script : Option String) → Keeps (IsOpen 1 0) (run_script script)
  unfolding run_script check_status opened closed opened_files closed_files
  run_script-IsOpen none = Keeps-pure _ _
  run_script-IsOpen (some script) = Keeps-bind _ _ _ (Keeps-ask _ _ _ (λ t r p. p)) (λ rc.
      Keeps-if _ _ _ _ (Keeps-pure _ _)
        (Keeps-bind _ _ _ (Keeps-ask _ _ _ (λ t r p. p)) (λ e. Keeps-raise _ _)))

  opening :
      (t : List Wire)
      → IsOpen 1 0 t
      → Triple t (ask o.open_sftp opens_sftp) (λ a. IsOpen 1 1) (λ e. IsOpen 1 0)
  unfolding opened closed opened_files closed_files
  opening t p = Triple-ask _ _ t _ _ (λ a. (p.0, ground arith)) (λ e. p)

  module _ {A : Type 0} (m : Trace Wire A) where
    closing_files :
        Keeps (IsOpen 1 1) m
        → (t : List Wire) → IsOpen 1 1 t
        → Triple t (finally closes_sftp m) (λ a. IsOpen 1 0) (λ e. IsOpen 1 0)
    unfolding opened closed opened_files closed_files
    closing_files k t p =
        Triple-finally _ _ t _ _
          (Triple-map t _ (k.run t p) (λ b v r. (r.0, ground arith)) (λ e v r. (r.0, ground arith)))

    closing :
        Keeps (IsOpen 1 0) m
        → (t : List Wire) → IsOpen 1 0 t
        → Triple t (finally closes m) (λ a. IsClosed) (λ e. IsClosed)
    unfolding opened closed opened_files closed_files
    closing k t p = Triple-finally _ _ t _ _ (
        Triple-map t _ (k.run t p) (λ b v r. (ground arith, ground arith))
          (λ e v r. (ground arith, ground arith)))

  deliver-IsOpen : (cert_pem key_pem : Bytes) → Keeps (IsOpen 1 0) (deliver h cert_pem key_pem)
  unfolding deliver put_files
  deliver-IsOpen cert_pem key_pem = record {
    run = λ t p. Triple-bind _ _ _ t _ _ (opening t p) (λ a u q.
        Triple-bind _ _ _ u _ _
          (closing_files _ (Keeps-bind _ _ _ (put-IsOpen _ _ _) (λ x. put-IsOpen _ _ _)) u q)
          (λ b v r. (run_script-IsOpen _).run v r));
  }

  existing_cert-IsOpen : Keeps (IsOpen 1 0) (existing_cert h)
  unfolding existing_cert
  existing_cert-IsOpen = record {
    run = λ t p.
        Triple-bind _ _ _ t _ _ (opening t p) (λ a u q. closing_files _ read_cert-IsOpen u q);
  }

  -- `install` and `is_current` close every connection and every file session that they open, also
  -- when they raise.
  pub sessions-IsClosed :
      (cert_pem key_pem : Bytes) (t : List Wire)
      → IsClosed t
      → IsClosed (is_current h cert_pem t).1 × IsClosed (install h cert_pem key_pem t).1
  unfolding install is_current
  sessions-IsClosed cert_pem key_pem t p = (
    kept IsClosed _ t
        (Keeps-bind _ _ _ (Keeps-lift _ _) (λ desired. record {
          run = λ u q. Triple-bind _ _ _ u _ _ (connect-IsOpen u q) (λ a v r.
              Triple-bind _ _ _ v _ _ (closing _ existing_cert-IsOpen v r)
                (λ b x y. (Keeps-lift IsClosed _).run x y));
        }))
        p,
    kept IsClosed _ t
        (record {
          run = λ u q.
              Triple-bind _ _ _ u _ _ (connect-IsOpen u q)
                (λ a v r. closing _ (deliver-IsOpen cert_pem key_pem) v r);
        })
        p,
  )
