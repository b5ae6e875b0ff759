-- ===== src/Provisioners/Idrac8/Pinning.antt =====
-- No password leaves before the host is authenticated, and it only goes to the peer that was.
use cert_publisher.Prelude.{
  ℕ, String, ◌≡◌, ◌⊎◌, refl, inl, inr, true, Option, none, some, List, [], ◌∷◌, ◌==◌, arith, eq_iff,
  Bool-cases, ap, sym, ◌∙◌,
}
use cert_publisher.Resources.{Bytes}
use cert_publisher.Effects.{Result, ok, raised}
use cert_publisher.Provisioners.Dialogue.{
  Trust, anybody, Wire, handshakes, posts, sleeps, Trail, Outside, Line, Talk, pure, raise, lift,
  ◌>>=◌, continue,
}
use cert_publisher.Provisioners.Dialogue.Keeps.{Keeps, Keeps-bind, Keeps-pure, Keeps-lift, Keeps-if}
use cert_publisher.Provisioners.Wsman.{WsmanClient, card_service}
use cert_publisher.Provisioners.Wsman.Keeps.{Outlives, invoke-Keeps}
use cert_publisher.Provisioners.Idrac8.{
  Idrac8, trust_of, peer_der, matched, bootstrap, nonempty, or_bootstrap, authenticated_peer,
  connect, connect_with, client_of, connect_or_raise, request_csr, reset_unless, generate_csr,
  import_over, import_payload, import_certificate, installed_certificate,
}
use cert_publisher.Provisioners.Idrac8.Keeps.{Spares, current_subject-Keeps, ensure_subject-Keeps}

-- A handshake with this trust ended with this certificate.
abbrev pub Saw : Trust → Bytes → Trail → Type 0
Saw trust der [] = ⊥
Saw trust der (w ∷ t) = (w ≡ handshakes trust (ok (some der))) ⊎ Saw trust der t

module _ ⦃o : Outside⦄ (h : Idrac8) where
  -- The pin is the hash of a certificate that an earlier handshake verified, or that an earlier
  -- handshake showed and that has the bootstrap thumbprint.
  abbrev pub IsAccepted : String → Trail → Type 0
  IsAccepted pin t =
      (der : Bytes) × (o.sha256_hex der ≡ pin)
      × (Saw (trust_of h true) der t ⊎ ((h.bootstrap_thumbprint ≡ some pin) × Saw anybody der t))

  -- Every request went over a session with an accepted pin.
  abbrev pub IsPinned : Trail → Type 0
  IsPinned [] = Unit
  IsPinned (posts p ∷ t) = IsAccepted p.pin t × IsPinned t
  IsPinned (handshakes trust r ∷ t) = IsPinned t
  IsPinned (sleeps n ∷ t) = IsPinned t

  later : (pin : String) (w : Wire) (t : Trail) → IsAccepted pin t → IsAccepted pin (w ∷ t)
  later pin w t (der, e, inl s) = (der, e, inl (inr s))
  later pin w t (der, e, inr (b, s)) = (der, e, inr (b, inr s))

  -- What holds from the connection on.
  pub record Connected (pin : String) (t : Trail) : Type 0 where
    pub accepted : IsAccepted pin t
    pub pinned : IsPinned t

  Connected-Outlives : (c : WsmanClient) (what : String) → Outlives (Connected c.pin) c what
  Connected-Outlives c what envelope r t k = record {
    accepted = later c.pin _ t k.accepted;
    pinned = (k.accepted, k.pinned);
  }

  Connected-Spares : (c : WsmanClient) → Spares (Connected c.pin) c
  Connected-Spares c = record {
    reads = Connected-Outlives c _;
    sets = Connected-Outlives c _;
    creates = Connected-Outlives c _;
    rests = λ n t k. record { accepted = later c.pin _ t k.accepted; pinned = k.pinned };
  }

  -- What the authentication comes to.
  abbrev Authenticated : Result Bytes × Line → Type 0
  Authenticated (ok der, l) = IsPinned l.trail × IsAccepted (o.sha256_hex der) l.trail
  Authenticated (raised e, l) = IsPinned l.trail

  matched-Authenticated :
      (thumbprint : String) (r : Result (Option Bytes)) (t : Trail) (n : ℕ)
      → h.bootstrap_thumbprint ≡ some thumbprint
      → IsPinned t
      → Authenticated (
          continue r
            (λ der. lift (matched h thumbprint der))
            (record { trail = handshakes anybody r ∷ t; readings = n }))
  unfolding matched lift
  matched-Authenticated thumbprint (raised e) t n b k = k
  matched-Authenticated thumbprint (ok none) t n b k = k
  matched-Authenticated thumbprint (ok (some der)) t n b k =
      elim (Bool-cases (o.sha256_hex der == thumbprint)) [
        | inl e ↦ simp e (
            (
              k,
              (
                der,
                refl,
                inr (b ∙ ap some (sym ((eq_iff (o.sha256_hex der) thumbprint).0 e)), inl refl),
              ),
            ))
        | inr e ↦ simp e k
      ]

  bootstrap-Authenticated :
      (b : Option String) (l : Line)
      → ((thumbprint : String) → b ≡ some thumbprint → h.bootstrap_thumbprint ≡ some thumbprint)
      → IsPinned l.trail
      → Authenticated (bootstrap h b l)
  unfolding bootstrap raise ◌>>=◌ peer_der trust_of
  bootstrap-Authenticated none l e k = k
  bootstrap-Authenticated (some thumbprint) l e k =
      matched-Authenticated thumbprint _ l.trail l.readings (e thumbprint refl) k

  nonempty-some :
      (b : Option String) (thumbprint : String) → nonempty b ≡ some thumbprint → b ≡ some thumbprint
  unfolding nonempty
  nonempty-some none thumbprint e = e
  nonempty-some (some s) thumbprint e = ground arith

  verified-Authenticated :
      (r : Result (Option Bytes)) (t : Trail) (n : ℕ)
      → IsPinned t
      → Authenticated (
          continue r
            (or_bootstrap h)
            (record { trail = handshakes (trust_of h true) r ∷ t; readings = n }))
  unfolding or_bootstrap pure
  verified-Authenticated (raised e) t n k = k
  verified-Authenticated (ok none) t n k =
      bootstrap-Authenticated (nonempty h.bootstrap_thumbprint) _
        (nonempty-some h.bootstrap_thumbprint) k
  verified-Authenticated (ok (some der)) t n k = (k, (der, refl, inl (inl refl)))

  authenticated_peer-Authenticated :
      (l : Line) → IsPinned l.trail → Authenticated (authenticated_peer h l)
  unfolding authenticated_peer ◌>>=◌ peer_der
  authenticated_peer-Authenticated l k = verified-Authenticated _ l.trail l.readings k

  -- What opening the session comes to.
  abbrev Opened : Result WsmanClient × Line → Type 0
  Opened (ok c, l) = Connected c.pin l.trail
  Opened (raised e, l) = IsPinned l.trail

  opened :
      (password : String) (r : Result Bytes) (l : Line)
      → Authenticated (r, l)
      → Opened (continue r (λ der. pure (client_of h password der)) l)
  unfolding pure client_of
  opened password (ok der) l a = record { accepted = a.1; pinned = a.0 }
  opened password (raised e) l a = a

  connect-Opened :
      (p : Option String) (l : Line) → IsPinned l.trail → Opened (connect_or_raise h p l)
  unfolding connect_or_raise raise connect_with ◌>>=◌
  connect-Opened none l k = k
  connect-Opened (some p) l k = elim (Bool-cases (p == "")) [
    | inl e ↦ simp e k
    | inr e ↦ simp e (
        opened p (authenticated_peer h l).0 (authenticated_peer h l).1
          (authenticated_peer-Authenticated l k))
  ]

  -- A talk that begins with the session, and keeps what holds then.
  with_session :
      {A : Type 0} (r : Result WsmanClient) (f : WsmanClient → Talk A) (l : Line)
      → Opened (r, l)
      → ((c : WsmanClient) → Keeps (Connected c.pin) (f c))
      → IsPinned (continue r f l).1.trail
  with_session (ok c) f l k j = ((j c).kept l k).pinned
  with_session (raised e) f l k j = k

  request_csr-Keeps :
      (c : WsmanClient) (u : Option (Unit {0})) → Keeps (Connected c.pin) (request_csr h c u)
  unfolding request_csr
  request_csr-Keeps c none = Keeps-pure _ _
  request_csr-Keeps c (some u) =
      Keeps-bind _ _ _ (invoke-Keeps _ c card_service _ _ (Connected-Outlives c _))
        (λ output. Keeps-pure _ _)

  generate_csr-IsPinned :
      (common_name : String) (dns_names : List String) (fuel : ℕ) (l : Line)
      → IsPinned l.trail
      → IsPinned (generate_csr h common_name dns_names fuel l).1.trail
  unfolding generate_csr connect ◌>>=◌
  generate_csr-IsPinned common_name dns_names fuel l k =
      with_session (connect_or_raise h h.password l).0 _ (connect_or_raise h h.password l).1
        (connect-Opened h.password l k)
        (λ c.
          Keeps-bind (Connected c.pin) _ _
            (current_subject-Keeps (Connected c.pin) c (Connected-Outlives c _))
            (λ current.
              Keeps-bind _ _ _
                (ensure_subject-Keeps (Connected c.pin) h c (Connected-Spares c) _ fuel current)
                (λ applied.
                  Keeps-bind _ _ _ (request_csr-Keeps c applied) (λ output. Keeps-lift _ _))))

  reset_unless-Keeps : (c : WsmanClient) → Keeps (Connected c.pin) (reset_unless h c)
  unfolding reset_unless
  reset_unless-Keeps c = Keeps-if _ _ _ _ (Keeps-pure _ _) (
      Keeps-bind _ _ _ (invoke-Keeps _ c card_service _ _ (Connected-Outlives c _))
        (λ output. Keeps-pure _ _))

  import_over-Keeps :
      (payload : String) (c : WsmanClient) → Keeps (Connected c.pin) (import_over h payload c)
  unfolding import_over
  import_over-Keeps payload c =
      Keeps-bind _ _ _ (invoke-Keeps _ c card_service _ _ (Connected-Outlives c _))
        (λ output. reset_unless-Keeps c)

  import_payload-Keeps : (payload : String) → Keeps IsPinned (import_payload h payload)
  unfolding import_payload connect ◌>>=◌
  import_payload-Keeps payload = record {
    kept = λ l k.
        with_session (connect_or_raise h h.password l).0 (import_over h payload)
          (connect_or_raise h h.password l).1 (connect-Opened h.password l k)
          (import_over-Keeps payload);
  }

  import_certificate-Keeps : (cert_pem : Bytes) → Keeps IsPinned (import_certificate h cert_pem)
  unfolding import_certificate
  import_certificate-Keeps cert_pem =
      Keeps-bind IsPinned _ _ (Keeps-lift IsPinned _) (λ payload. import_payload-Keeps payload)

  after_peer :
      (r : Result Bytes) (l : Line)
      → Authenticated (r, l)
      → IsPinned (continue r (λ der. pure (some (o.der_to_pem der))) l).1.trail
  unfolding pure
  after_peer (ok der) l a = a.0
  after_peer (raised e) l a = a

  installed_certificate-IsPinned :
      (l : Line) → IsPinned l.trail → IsPinned (installed_certificate h l).1.trail
  unfolding installed_certificate ◌>>=◌
  installed_certificate-IsPinned l k =
      after_peer (authenticated_peer h l).0 (authenticated_peer h l).1
        (authenticated_peer-Authenticated l k)

  -- The password only goes to an authenticated host. If every request so far went over a session
  -- pinned to a certificate that an earlier handshake verified, or that an earlier handshake showed
  -- and that has the bootstrap thumbprint, then so did every request after `generate_csr`, after
  -- `import_certificate` and after `installed_certificate`, however the host answers, and whether the
  -- call returns or raises.
  pub requests-IsPinned :
      (common_name : String) (dns_names : List String) (fuel : ℕ) (cert_pem : Bytes) (l : Line)
      → IsPinned l.trail
      → IsPinned (generate_csr h common_name dns_names fuel l).1.trail
        × IsPinned (import_certificate h cert_pem l).1.trail
        × IsPinned (installed_certificate h l).1.trail
  requests-IsPinned common_name dns_names fuel cert_pem l k = (
    generate_csr-IsPinned common_name dns_names fuel l k,
    (import_certificate-Keeps cert_pem).kept l k,
    installed_certificate-IsPinned l k,
  )
