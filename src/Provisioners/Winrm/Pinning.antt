-- ===== src/Provisioners/Winrm/Pinning.antt =====
-- What goes to the host, and what was checked before.
use cert_publisher.Prelude.{
  String, Bool, true, false, Option, none, some, ◌≡◌, refl, List, [], ◌∷◌, ◌==◌, inl, inr,
  Bool-cases, ap, ◌∙◌,
}
use cert_publisher.Resources.{Bytes}
use cert_publisher.Effects.{ok, raised, World}
use cert_publisher.Provisioners.Trace.{Trace, pure, raise, finally, ◌>>=◌, ◌>>◌}
use cert_publisher.Provisioners.Trace.Triple.{
  Triple, Triple-bind, Triple-pure, Triple-raise, Triple-ask, Triple-finally, Triple-if, Triple-map,
}
use cert_publisher.Provisioners.Trace.Keeps.{
  Keeps, Keeps-bind, Keeps-pure, Keeps-raise, Keeps-lift, Keeps-ask, Keeps-ensure, Keeps-if, kept,
}
use cert_publisher.Provisioners.Powershell.{
  Value, Wsman, Pool, Invocation, Wire, handshakes, opens, exchanges_keys, invokes, closes, leaves,
  Outside, invoke, exchange, output_of,
}
use cert_publisher.Provisioners.WinrmSession.{
  Winrm, verify_endpoint, matched, wsman, wsman_by, pin_transport, with_pool, default_pool,
}
use cert_publisher.Provisioners.Winrm.{
  is_current, install, probe, cert_store_is_current, file_is_current, publish, install_store,
  install_files, put_file, put_key, post_install, hook, deliver, install_known, token,
}

module _ ⦃o : Outside⦄ where
  -- The certificate that the last check of the endpoint saw has the thumbprint.
  unfoldable pub verified : Winrm → List Wire → Bool
  verified h [] = false
  verified h (handshakes (ok der) ∷ t) = o.upper (o.sha1_hex der) == h.thumbprint
  verified h (handshakes (raised e) ∷ t) = false
  verified h (_ ∷ t) = verified h t

  -- What goes over this session goes to a peer with the thumbprint alone, and only after the check.
  abbrev pub IsSafe : Winrm → Wsman → List Wire → Type 0
  IsSafe h c t = (c.pin ≡ h.thumbprint) × (verified h t ≡ true)

  abbrev pub IsPinned : Winrm → List Wire → Type 0
  IsPinned h [] = Unit
  IsPinned h (handshakes r ∷ t) = IsPinned h t
  IsPinned h (opens p r ∷ t) = IsSafe h p.wsman t × IsPinned h t
  IsPinned h (exchanges_keys p r ∷ t) = IsSafe h p.wsman t × IsPinned h t
  IsPinned h (invokes i r ∷ t) = IsSafe h i.pool.wsman t × IsPinned h t
  IsPinned h (closes p r ∷ t) = IsSafe h p.wsman t × IsPinned h t
  IsPinned h (leaves ∷ t) = IsPinned h t

  module _ (h : Winrm) where
    -- The trail while a session is in use.
    abbrev IsReady : List Wire → Type 0
    IsReady t = (verified h t ≡ true) × IsPinned h t

    verify-IsReady :
        (t : List Wire)
        → IsPinned h t
        → Triple t (verify_endpoint h) (λ a. IsReady) (λ e. IsPinned h)
    unfolding verify_endpoint matched verified
    verify-IsReady t p =
        Triple-bind (λ der u. u ≡ handshakes (ok der) ∷ t) _ _ t _ _
          (Triple-ask _ _ t _ _ (λ a. refl) (λ e. p))
          (λ der u e.
            Triple-if _ _ u _ _ _ (λ b. Triple-pure _ _ u _ (rw e (b, p)))
              (λ b. Triple-raise _ _ u _ (rw e p)))

    pin_transport-IsSafe :
        (password : String) (t : List Wire)
        → IsReady t
        → Triple t
            (pin_transport h password)
            (λ c u. (c.pin ≡ h.thumbprint) × IsReady u)
            (λ e. IsPinned h)
    unfolding pin_transport pure raise
    pin_transport-IsSafe password t p = elim (Bool-cases (o.has_session t)) [
      | inl e ↦ record { ended = simp e (p.1) }
      | inr e ↦ record { ended = simp e (refl, p) }
    ]

    wsman_by-IsSafe :
        (password : Option String) (t : List Wire)
        → IsReady t
        → Triple t
            (wsman_by h password)
            (λ c u. (c.pin ≡ h.thumbprint) × IsReady u)
            (λ e. IsPinned h)
    unfolding wsman_by
    wsman_by-IsSafe none t p = Triple-raise _ _ t _ p.1
    wsman_by-IsSafe (some password) t p = pin_transport-IsSafe password t p

    wsman-IsSafe :
        (t : List Wire)
        → IsReady t
        → Triple t (wsman h) (λ c u. (c.pin ≡ h.thumbprint) × IsReady u) (λ e. IsPinned h)
    unfolding wsman
    wsman-IsSafe t p = wsman_by-IsSafe _ t p

    module _ (c : Wsman) (pinned : c.pin ≡ h.thumbprint) where
      invoke-Keeps : (i : Invocation) → i.pool.wsman ≡ c → Keeps IsReady (invoke i)
      unfolding invoke output_of exchange verified
      invoke-Keeps i e = Keeps-bind _ _ _ (exchanged i.secure_parameters) (λ u.
          Keeps-bind _ _ _ (Keeps-ask _ _ _ (λ t r p. (p.0, ((safe, p.0), p.1))))
            (λ p. Keeps-if _ _ _ _ (Keeps-raise _ _) (Keeps-pure _ _)))
        where
          safe : i.pool.wsman.pin ≡ h.thumbprint
          safe = ap (λ (x : Wsman). x.pin) e ∙ pinned

          exchanged : (secure : List (String × String)) → Keeps IsReady (exchange i.pool secure)
          exchanged [] = Keeps-pure _ _
          exchanged (s ∷ ss) = Keeps-ask _ _ _ (λ t r p. (p.0, ((safe, p.0), p.1)))

      with_pool-Keeps :
          {A : Type 0} (pool : Pool) (body : Pool → Trace Wire A)
          → pool.wsman ≡ c
          → Keeps IsReady (body pool)
          → Keeps IsReady (with_pool pool body)
      unfolding with_pool verified
      with_pool-Keeps pool body e k =
          Keeps-bind _ _ _ (Keeps-ask _ _ _ (λ t r p. (p.0, ((safe, p.0), p.1))))
            (λ u. Keeps-ensure _ _ _ (Keeps-ask _ _ _ (λ t r p. (p.0, ((safe, p.0), p.1)))) k)
        where
          safe : pool.wsman.pin ≡ h.thumbprint
          safe = ap (λ (x : Wsman). x.pin) e ∙ pinned

      module _ ⦃w : World⦄ where
        probe-Keeps :
            (cert_pem : Bytes) (pool : Pool)
            → pool.wsman ≡ c
            → Keeps IsReady (probe h cert_pem pool)
        unfolding probe cert_store_is_current file_is_current
        probe-Keeps cert_pem pool e =
            Keeps-if _ _ _ _
              (Keeps-bind _ _ _ (Keeps-lift _ _)
                (λ x. Keeps-bind _ _ _ (invoke-Keeps _ e) (λ y. Keeps-pure _ _)))
              (Keeps-bind _ _ _ (invoke-Keeps _ e)
                (λ x. Keeps-bind _ _ _ (Keeps-lift _ _) (λ y. Keeps-pure _ _)))

        token-Keeps : Keeps IsReady token
        unfolding token
        token-Keeps = record { run = λ t p. record { ended = p } }

        put_file-Keeps :
            (pool : Pool) (path : Value) (contents : Bytes)
            → pool.wsman ≡ c
            → Keeps IsReady (put_file pool path contents)
        unfolding put_file
        put_file-Keeps pool path contents e =
            Keeps-bind _ _ _ (invoke-Keeps _ e) (λ y. Keeps-pure _ _)

        put_key-Keeps :
            (pool : Pool) (path : Option String) (contents : Bytes)
            → pool.wsman ≡ c
            → Keeps IsReady (put_key pool path contents)
        unfolding put_key
        put_key-Keeps pool none contents e = Keeps-pure _ _
        put_key-Keeps pool (some path) contents e = put_file-Keeps pool _ contents e

        publish-Keeps :
            (cert_pem key_pem : Bytes) (pool : Pool)
            → pool.wsman ≡ c
            → Keeps IsReady (publish h cert_pem key_pem pool)
        unfolding publish install_store install_files
        publish-Keeps cert_pem key_pem pool e =
            Keeps-if _ _ _ _
              (Keeps-bind _ _ _ (Keeps-lift _ _) (λ x. Keeps-bind _ _ _ (Keeps-lift _ _) (λ y.
                Keeps-bind _ _ _ token-Keeps (λ z. Keeps-bind _ _ _ (Keeps-lift _ _) (λ a.
                  Keeps-bind _ _ _ (Keeps-lift _ _)
                    (λ b. Keeps-bind _ _ _ (invoke-Keeps _ e) (λ y. Keeps-pure _ _)))))))
              (Keeps-bind _ _ _ (put_file-Keeps _ _ _ e) (λ x. put_key-Keeps _ _ _ e))

        hook-Keeps :
            (script : String) (cert_pem : Bytes) (pool : Pool)
            → pool.wsman ≡ c
            → Keeps IsReady (hook script cert_pem pool)
        unfolding hook
        hook-Keeps script cert_pem pool e =
            Keeps-bind _ _ _ (Keeps-lift _ _)
              (λ y. Keeps-bind _ _ _ (invoke-Keeps _ e) (λ z. Keeps-pure _ _))

        post_install-Keeps :
            (cert_pem : Bytes) (script : Option String)
            → Keeps IsReady (post_install h c cert_pem script)
        unfolding post_install
        post_install-Keeps cert_pem none = Keeps-pure _ _
        post_install-Keeps cert_pem (some script) =
            Keeps-bind _ _ _ (Keeps-lift _ _) (λ x.
              with_pool-Keeps _ (hook script cert_pem) refl (hook-Keeps script cert_pem _ refl))

        deliver-Keeps : (cert_pem key_pem : Bytes) → Keeps IsReady (deliver h cert_pem key_pem c)
        unfolding deliver default_pool
        deliver-Keeps cert_pem key_pem =
            Keeps-bind _ _ _
              (with_pool-Keeps _ (publish h cert_pem key_pem) refl
                (publish-Keeps cert_pem key_pem _ refl))
              (λ x. post_install-Keeps cert_pem _)

    -- What is done over the session, from the check on.
    over_session :
        {A : Type 0} (body : Wsman → Trace Wire A)
        → ((c : Wsman) → c.pin ≡ h.thumbprint → Keeps IsReady (body c))
        → Keeps (IsPinned h) (do verify_endpoint h; client ← wsman h; finally leaves (body client))
    over_session body k = record {
      run = λ t p. Triple-bind _ _ _ t _ _ (verify-IsReady t p) (λ a u q.
          Triple-bind _ _ _ u _ _ (wsman-IsSafe u q) (λ c v r.
            Triple-finally _ _ v _ _
              (Triple-map v _ ((k c r.0).run v r.1) (λ b x y. y.1) (λ e x y. y.1))));
    }

    module _ ⦃w : World⦄ where
      install-Keeps : (cert_pem key_pem : Bytes) → Keeps (IsPinned h) (install h cert_pem key_pem)
      unfolding install install_known
      install-Keeps cert_pem key_pem =
          Keeps-if _ _ _ _ (over_session _ (λ c e. deliver-Keeps c e cert_pem key_pem))
            (Keeps-raise _ _)

      is_current-Keeps : (cert_pem : Bytes) → Keeps (IsPinned h) (is_current h cert_pem)
      unfolding is_current default_pool
      is_current-Keeps cert_pem = over_session _ (λ c e.
          with_pool-Keeps c e (default_pool c) (probe h cert_pem) refl
            (probe-Keeps c e cert_pem _ refl))

      -- Whatever `is_current` and `install` send to a pool of the host, the password, the keys and the scripts with it, goes over a session that is pinned to the
      -- thumbprint, after a check of the endpoint that saw a certificate with this thumbprint.
      pub sessions-IsPinned :
          (cert_pem key_pem : Bytes) (t : List Wire)
          → IsPinned h t
          → IsPinned h (is_current h cert_pem t).1 × IsPinned h (install h cert_pem key_pem t).1
      sessions-IsPinned cert_pem key_pem t p =
          (kept _ _ t (is_current-Keeps cert_pem) p, kept _ _ t (install-Keeps cert_pem key_pem) p)
