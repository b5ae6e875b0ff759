-- ===== src/Provisioners/Ssh/Pinning.antt =====
-- Whom the client talks to, and how it logs in.
use cert_publisher.Prelude.{
  arith, ℕ, String, Option, none, some, ◌≡◌, ◌↔◌, refl, inl, inr, List, [], ◌∷◌, Bool-cases, ◌==◌,
  eq_iff, ◌⊎◌, ◌≢◌, ap, subst, ◌∙◌,
}
use cert_publisher.Utils.{and_then-eq-ok}
use cert_publisher.Provisioners.Credentials.{Credentials}
use cert_publisher.Resources.{Bytes}
use cert_publisher.Effects.{Exception, Result, ok, raised, World}
use cert_publisher.Provisioners.Xml.{strip}
use cert_publisher.Provisioners.Trace.Keeps.{
  Keeps, Keeps-bind, Keeps-pure, Keeps-raise, Keeps-lift, Keeps-ask, Keeps-finally, Keeps-except,
  Keeps-if, kept,
}
use cert_publisher.Provisioners.Trace.Triple.{Triple-bind, Triple-lift, Triple-ask}
use cert_publisher.Provisioners.Ssh.{
  Outside, Ssh, Wire, connects, fingerprint, login_of, KeyType, ed25519, ecdsa, rsa,
  is_ssh_exception, Login, with_key, with_password, truthy, keyed, load_private_key, load_from,
  missing_host_key, connect, connect_with, is_current, install, existing_cert, read_cert, deliver,
  put_files, put, run_script, check_status,
}

module _ ⦃w : World⦄ ⦃o : Outside⦄ where
  abbrev pub IsUnset : Option String → Type 0
  IsUnset setting = (setting ≡ none) ⊎ (setting ≡ some "")

  -- The private key, which is read as a key of some type, if there is one; only without it the password.
  abbrev pub Prefers : Credentials → Login → Type 0
  Prefers c (with_key key) =
      (pem : String) × (c.private_key ≡ some pem)
      × (pem ≢ "")
      × ((type : KeyType) × (o.from_private_key type pem c.passphrase ≡ ok key))
  Prefers c (with_password password) =
      IsUnset c.private_key × (c.password ≡ some password) × (password ≢ "")

  -- Every connection goes on with a host only if the fingerprint of the key that it shows is the pinned one, and logs in with what
  -- the credentials prefer.
  abbrev pub IsPinned : Ssh → List Wire → Type 0
  IsPinned h [] = Unit
  IsPinned h (connects policy login r ∷ t) =
      ((key : Bytes) → (policy key ≡ ok tt) ↔ (fingerprint key ≡ strip h.host_fingerprint))
      × Prefers h.credentials login
      × IsPinned h t
  IsPinned h (_ ∷ t) = IsPinned h t

  -- Whether a setting is a text that is not empty.
  truthy_lem :
      (setting : Option String)
      → ((truthy setting ≡ none) × IsUnset setting)
        ⊎ ((text : String) × (truthy setting ≡ some text) × (setting ≡ some text) × (text ≢ ""))
  unfolding truthy
  truthy_lem none = inl (refl, inl refl)
  truthy_lem (some text) = elim (Bool-cases (text == "")) [
    | inl e ↦ simp e (inl (refl, inr (ap some ((eq_iff text "").0 e))))
    | inr e ↦ simp e (inr (text, refl, refl, λ h. ground (arith, e, (eq_iff text "").1 h)))
  ]

  Result-cases :
      (r : Result Bytes) → ((a : Bytes) × (r ≡ ok a)) ⊎ ((e : Exception) × (r ≡ raised e))
  Result-cases (ok a) = inl (a, refl)
  Result-cases (raised e) = inr (e, refl)

  load_from_lem :
      (types : List KeyType) (pem : String) (passphrase : Option String) (last_error : String)
      (key : Bytes)
      → load_from types pem passphrase last_error ≡ ok key
      → (type : KeyType) × (o.from_private_key type pem passphrase ≡ ok key)
  unfolding load_from
  load_from_lem [] pem passphrase last_error key e = cc
  load_from_lem (t ∷ types) pem passphrase last_error key e =
      elim (Result-cases (o.from_private_key t pem passphrase)) [
        | inl (a, f) ↦ (t, f ∙ (simp (f, load_from) at e))
        | inr (x, f) ↦ elim (Bool-cases (is_ssh_exception x.kind)) [
          | inl b ↦ load_from_lem types pem passphrase x.text key (simp (f, b, load_from) at e)
          | inr b ↦ absurd (unwanted (simp (f, b, load_from) at e))
        ]
      ]
    where
      unwanted : {x : Exception} {key : Bytes} → ◌≡◌ {A = Result Bytes} (raised x) (ok key) → ⊥
      unwanted h = cc

  keyed_lem :
      (pem : String) (passphrase : Option String) (login : Login)
      → keyed pem passphrase ≡ ok login
      → (key : Bytes) × (login ≡ with_key key) × (load_private_key pem passphrase ≡ ok key)
  unfolding keyed
  keyed_lem pem passphrase login e =
      let (key, l, k) = and_then-eq-ok (load_private_key pem passphrase) _ e in (key, cc k, l)

  login_of-Prefers : (c : Credentials) (login : Login) → login_of c ≡ ok login → Prefers c login
  unfolding login_of load_private_key truthy
  login_of-Prefers c login e = elim (truthy_lem c.private_key) [
    | inl (n, unset) ↦ elim (truthy_lem c.password) [
      | inl (m, missing) ↦ absurd (unwanted (simp (n, m, login_of) at e))
      | inr (password, y, set, full) ↦
          subst (Prefers c) (login_by password (simp (n, y, login_of) at e)) (unset, set, full)
    ]
    | inr (pem, y, set, full) ↦
        let (key, k, l) = keyed_lem pem c.passphrase login (simp (y, login_of) at e) in
        rw k
          (pem, set, full, load_from_lem (ed25519 ∷ ecdsa ∷ rsa ∷ []) pem c.passphrase "None" key l)
  ]
    where
      unwanted : {x : Exception} {login : Login} → ◌≡◌ {A = Result Login} (raised x) (ok login) → ⊥
      unwanted h = cc

      login_by :
          (password : String)
          → ◌≡◌ {A = Result Login} (ok (with_password password)) (ok login)
          → with_password password ≡ login
      login_by password h = cc h

  missing_host_key_lem :
      (expected hostname : String) (key : Bytes)
      → (missing_host_key expected hostname key ≡ ok tt) ↔ (fingerprint key ≡ strip expected)
  unfolding missing_host_key
  missing_host_key_lem expected hostname key =
      elim (Bool-cases (fingerprint key == strip expected)) [
        | inl e ↦ simp e ((λ h. (eq_iff (fingerprint key) (strip expected)).0 e), (λ h. refl))
        | inr e ↦ simp e (
          (λ h. absurd (unwanted h)),
          (λ h. absurd (ground (arith, e, (eq_iff (fingerprint key) (strip expected)).1 h))),
        )
      ]
    where
      unwanted : {e : Exception} → ◌≡◌ {A = Result (Unit {0})} (raised e) (ok tt) → ⊥
      unwanted h = cc

  module _ (h : Ssh) where
    connect-IsPinned : Keeps (IsPinned h) (connect h)
    unfolding connect connect_with
    connect-IsPinned = record {
      run = λ t p.
          Triple-bind (λ login u. IsPinned h u × Prefers h.credentials login) _ _ t _ _
            (Triple-lift _ _ t _ (λ login e. (p, login_of-Prefers _ login e)) (λ x e. p))
            (λ login u q.
              Triple-ask _ _ u _ _ (λ a. (missing_host_key_lem _ _, q.1, q.0))
                (λ e. (missing_host_key_lem _ _, q.1, q.0)));
    }

    is_current-Keeps : (cert_pem : Bytes) → Keeps (IsPinned h) (is_current h cert_pem)
    unfolding is_current existing_cert read_cert
    is_current-Keeps cert_pem = Keeps-bind _ _ _ (Keeps-lift _ _) (λ desired.
        Keeps-bind _ _ _ connect-IsPinned (λ u.
          Keeps-bind _ _ _
            (Keeps-finally _ _ _ (λ t p. p)
              (Keeps-bind _ _ _ (Keeps-ask _ _ _ (λ t r p. p)) (λ v.
                Keeps-finally _ _ _ (λ t p. p)
                  (Keeps-except _ _ _ _ (Keeps-pure _ _)
                    (Keeps-bind _ _ _ (Keeps-ask _ _ _ (λ t r p. p)) (λ b. Keeps-pure _ _))))))
            (λ e. Keeps-lift _ _)))

    put-Keeps :
        (path : String) (contents : Bytes) (mode : ℕ) → Keeps (IsPinned h) (put path contents mode)
    unfolding put
    put-Keeps path contents mode =
        Keeps-bind _ _ _ (Keeps-ask _ _ _ (λ t r p. p)) (λ u. Keeps-ask _ _ _ (λ t r p. p))

    run_script-Keeps : (script : Option String) → Keeps (IsPinned h) (run_script script)
    unfolding run_script check_status
    run_script-Keeps none = Keeps-pure _ _
    run_script-Keeps (some script) = Keeps-bind _ _ _ (Keeps-ask _ _ _ (λ t r p. p)) (λ rc.
        Keeps-if _ _ _ _ (Keeps-pure _ _)
          (Keeps-bind _ _ _ (Keeps-ask _ _ _ (λ t r p. p)) (λ e. Keeps-raise _ _)))

    install-Keeps : (cert_pem key_pem : Bytes) → Keeps (IsPinned h) (install h cert_pem key_pem)
    unfolding install deliver put_files
    install-Keeps cert_pem key_pem = Keeps-bind _ _ _ connect-IsPinned (λ u.
        Keeps-finally _ _ _ (λ t p. p)
          (Keeps-bind _ _ _ (Keeps-ask _ _ _ (λ t r p. p)) (λ v.
            Keeps-bind _ _ _
              (Keeps-finally _ _ _ (λ t p. p)
                (Keeps-bind _ _ _ (put-Keeps _ _ _) (λ x. put-Keeps _ _ _)))
              (λ x. run_script-Keeps _))))

    -- `is_current` and `install` go on with a host exactly if the fingerprint of the key that it shows is the pinned one.
    -- They log in with a key only if the credentials have a private key that is not empty and this key is what
    -- the private key is read as, and with a password only if the credentials have no private key, or an empty one,
    -- and this password, which is not empty. Each connection keeps this true of the trail.
    pub connections-IsPinned :
        (cert_pem key_pem : Bytes) (t : List Wire)
        → IsPinned h t
        → IsPinned h (is_current h cert_pem t).1 × IsPinned h (install h cert_pem key_pem t).1
    connections-IsPinned cert_pem key_pem t p =
        (kept _ _ t (is_current-Keeps cert_pem) p, kept _ _ t (install-Keeps cert_pem key_pem) p)
