-- ===== src/Provisioners/Winrm/Ordering.antt =====
-- In which order `install` works.
use cert_publisher.Prelude.{
  String, true, false, Option, none, some, ◌≡◌, refl, List, [], ◌∷◌, ◌==◌, inl, inr, Bool-cases, ap,
  ◌∙◌,
}
use cert_publisher.Resources.{Bytes}
use cert_publisher.Effects.{ok, World}
use cert_publisher.Provisioners.Trace.{pure, raise}
use cert_publisher.Provisioners.Trace.Triple.{
  Triple, Triple-bind, Triple-pure, Triple-raise, Triple-lift, Triple-ask, Triple-finally,
  Triple-ensure, Triple-if, Triple-map,
}
use cert_publisher.Provisioners.Trace.Keeps.{
  Keeps, Keeps-bind, Keeps-pure, Keeps-raise, Keeps-ask, Keeps-if,
}
use cert_publisher.Provisioners.Ssh.{truthy}
use cert_publisher.Provisioners.Unattended.{unattended_host}
use cert_publisher.Provisioners.Powershell.{
  Script, install_cert_store, write_file, run_post_install, Value, text, bytes, flag, Wsman, Pool,
  Invocation, Pipeline, Wire, opens, invokes, closes, leaves, Outside, invoke, exchange, output_of,
}
use cert_publisher.Provisioners.WinrmSession.{
  Winrm, mode_cert_store, verify_endpoint, matched, wsman, wsman_by, pin_transport, with_pool,
  default_pool,
}
use cert_publisher.Provisioners.Winrm.{
  value_of, head, others, install, publish, install_store, install_files, put_file, put_key,
  sha1_thumbprint, post_install, hook, deliver, install_known, known_mode, unknown_mode, token,
}

-- The last thing that ran, without an error.
pub record Ran (i : Invocation) (earlier t : List Wire) : Type 0 where
  pub pipeline : Pipeline
  pub entry : t ≡ invokes i (ok pipeline) ∷ earlier
  pub clean : pipeline.had_errors ≡ false

-- The blob that is imported on the host, from the certificate with its chain and the key.
pub record IsBundle ⦃o : Outside⦄ (cert_pem key_pem pfx : Bytes) (password : String) : Type 0 where
  pub certs : List Bytes
  pub key : Bytes
  pub cert : Bytes
  pub loaded : o.load_certificates cert_pem ≡ ok certs
  pub loaded_key : o.load_private_key key_pem ≡ ok key
  pub first : head certs ≡ ok cert
  pub serialized : o.serialize key cert (others certs) password ≡ ok pfx

abbrev pub store_invocation : Winrm → Pool → Bytes → String → Invocation
store_invocation h pool pfx password = record {
  pool = pool;
  script = install_cert_store;
  parameters =
      ("PfxBytes", bytes pfx)
      ∷ ("StoreLocation", text h.store_location)
      ∷ ("StoreName", text h.store_name)
      ∷ ("Exportable", flag h.exportable_private_key)
      ∷ [];
  secure_parameters = ("Password", password) ∷ [];
}

abbrev pub file_invocation : Pool → Value → Bytes → Invocation
file_invocation pool path contents = record {
  pool = pool;
  script = write_file;
  parameters = ("Path", path) ∷ ("Content", bytes contents) ∷ [];
  secure_parameters = [];
}

module _ ⦃o : Outside⦄ ⦃w : World⦄ (h : Winrm) (cert_pem key_pem : Bytes) where
  -- The key is in its file, if it has one, after the certificate is in its own.
  abbrev HasFiles : Option String → Pool → List Wire → Type 0
  HasFiles none pool t =
      (earlier : List Wire) × Ran (file_invocation pool (value_of h.cert_path) cert_pem) earlier t
  HasFiles (some path) pool t =
      (earlier : List Wire) × (middle : List Wire) × Ran
        (file_invocation pool (value_of h.cert_path) cert_pem) earlier middle
      × Ran (file_invocation pool (text path) key_pem) middle t

  -- What the mode asks for has run in this pool.
  pub data IsPublished (pool : Pool) (t : List Wire) : Type 0 where
    stored :
        (pfx : Bytes) (password : String) (earlier : List Wire)
        → (h.mode == mode_cert_store) ≡ true
        → IsBundle cert_pem key_pem pfx password
        → Ran (store_invocation h pool pfx password) earlier t
        → IsPublished pool t
    written :
        (h.mode == mode_cert_store) ≡ false
        → HasFiles (truthy h.key_path) pool t
        → IsPublished pool t

  -- The certificate is published over a pool, and this pool was then closed.
  pub record IsReady (t : List Wire) : Type 0 where
    pub pool : Pool
    pub earlier : List Wire
    pub shape : t ≡ closes pool (ok tt) ∷ earlier
    pub published : IsPublished pool earlier

  -- The same, and next the pool `pool` was opened.
  pub record IsOpened (pool : Pool) (t : List Wire) : Type 0 where
    pub earlier : List Wire
    pub shape : t ≡ opens pool (ok tt) ∷ earlier
    pub ready : IsReady earlier

  -- The last pool that was opened is this one, and it is not closed since.
  abbrev pub IsOpen : Pool → List Wire → Type 0
  IsOpen pool [] = ⊥
  IsOpen pool (opens q r ∷ t) = (q ≡ pool) × (r ≡ ok tt)
  IsOpen pool (closes q r ∷ t) = ⊥
  IsOpen pool (_ ∷ t) = IsOpen pool t

  abbrev Follows : Script → Pool → List Wire → Type 0
  Follows run_post_install pool t = IsOpened pool t
  Follows _ pool t = Unit

  -- A script runs only in a pool that is open, and the script of the operator only in one that was
  -- opened for it when the certificate was published.
  abbrev pub IsOrdered : List Wire → Type 0
  IsOrdered [] = Unit
  IsOrdered (invokes i r ∷ t) = IsOpen i.pool t × Follows i.script i.pool t × IsOrdered t
  IsOrdered (_ ∷ t) = IsOrdered t

  -- Over an open pool.
  abbrev Live : Pool → List Wire → Type 0
  Live pool t = IsOpen pool t × IsOrdered t

  verify-IsOrdered : Keeps IsOrdered (verify_endpoint h)
  unfolding verify_endpoint matched
  verify-IsOrdered =
      Keeps-bind _ _ _ (Keeps-ask _ _ _ (λ t r p. p))
        (λ der. Keeps-if _ _ _ _ (Keeps-pure _ _) (Keeps-raise _ _))

  wsman-IsOrdered : Keeps IsOrdered (wsman h)
  unfolding wsman
  wsman-IsOrdered = by (truthy h.credentials.password)
    where
      by : (password : Option String) → Keeps IsOrdered (wsman_by h password)
      by none = unfold wsman_by in Keeps-raise _ _
      by (some password) =
          unfold wsman_by in
          record {
            run = λ t p. elim (Bool-cases (o.has_session t)) [
              | inl e ↦ record { ended = unfold pin_transport raise in simp e p }
              | inr e ↦ record { ended = unfold pin_transport pure in simp e p }
            ];
          }

  -- A script without secure parameters.
  invoke-Ran :
      (i : Invocation) (t : List Wire)
      → i.secure_parameters ≡ []
      → Follows i.script i.pool t
      → Live i.pool t
      → Triple t (invoke i) (λ x u. Ran i t u × Live i.pool u) (λ e. IsOrdered)
  unfolding invoke output_of exchange
  invoke-Ran i t e f p =
      Triple-bind (λ x u. u ≡ t) _ _ t _ _ (unexchanged i.secure_parameters e)
        (λ x u d.
          Triple-bind (λ y v. v ≡ invokes i (ok y) ∷ u) _ _ u _ _
            (Triple-ask _ _ u _ _ (λ y. refl) (λ z. rw d (p.0, f, p.1)))
            (λ y v c.
              Triple-if _ _ v _ _ _ (λ b. Triple-raise _ _ v _ (rw (c, d) (p.0, f, p.1)))
                (λ b. Triple-pure _ _ v _ (
                  record { pipeline = y; entry = c ∙ ap (λ z. invokes i (ok y) ∷ z) d; clean = b },
                  rw (c, d) (p.0, (p.0, f, p.1)),
                ))))
    where
      unexchanged :
          (secure : List (String × String))
          → secure ≡ []
          → Triple t (exchange i.pool secure) (λ x u. u ≡ t) (λ e. IsOrdered)
      unexchanged [] e = Triple-pure _ _ t _ refl
      unexchanged (s ∷ ss) e = cc

  exchange-Live :
      (pool : Pool) (secure : List (String × String)) (t : List Wire)
      → Live pool t
      → Triple t (exchange pool secure) (λ x u. Live pool u) (λ e. IsOrdered)
  unfolding exchange
  exchange-Live pool [] t p = Triple-pure _ _ t _ p
  exchange-Live pool (s ∷ ss) t p = Triple-ask _ _ t _ _ (λ a. p) (λ e. p.1)

  -- A script that needs nothing before it.
  invoke_any-Ran :
      (i : Invocation) (t : List Wire)
      → ((u : List Wire) → Follows i.script i.pool u)
      → Live i.pool t
      → Triple t
          (invoke i)
          (λ x u. ((earlier : List Wire) × Ran i earlier u) × Live i.pool u)
          (λ e. IsOrdered)
  unfolding invoke output_of
  invoke_any-Ran i t f p =
      Triple-bind _ _ _ t _ _ (exchange-Live i.pool i.secure_parameters t p) (λ x u q.
        Triple-bind (λ y v. v ≡ invokes i (ok y) ∷ u) _ _ u _ _
          (Triple-ask _ _ u _ _ (λ y. refl) (λ z. (q.0, f u, q.1)))
          (λ y v c.
            Triple-if _ _ v _ _ _ (λ b. Triple-raise _ _ v _ (rw c (q.0, f u, q.1)))
              (λ b.
                Triple-pure _ _ v _ (
                  (u, record { pipeline = y; entry = c; clean = b }),
                  rw c (q.0, (q.0, f u, q.1)),
                ))))

  put_file-Ran :
      (pool : Pool) (path : Value) (contents : Bytes) (t : List Wire)
      → Live pool t
      → Triple t
          (put_file pool path contents)
          (λ x u. Ran (file_invocation pool path contents) t u × Live pool u)
          (λ e. IsOrdered)
  unfolding put_file
  put_file-Ran pool path contents t p =
      Triple-bind _ _ _ t _ _ (invoke-Ran (file_invocation pool path contents) t refl tt p)
        (λ x u q. Triple-pure _ _ u _ q)

  put_key-HasFiles :
      (pool : Pool) (path : Option String) (earlier t : List Wire)
      → Ran (file_invocation pool (value_of h.cert_path) cert_pem) earlier t
      → Live pool t
      → Triple t
          (put_key pool path key_pem)
          (λ x u. HasFiles path pool u × Live pool u)
          (λ e. IsOrdered)
  unfolding put_key
  put_key-HasFiles pool none earlier t r p = Triple-pure _ _ t _ ((earlier, r), p)
  put_key-HasFiles pool (some path) earlier t r p =
      Triple-map t _ (put_file-Ran pool (text path) key_pem t p)
        (λ x u q. ((earlier, t, r, q.0), q.1)) (λ e u q. q)

  install_files-IsPublished :
      (pool : Pool) (t : List Wire)
      → (h.mode == mode_cert_store) ≡ false
      → Live pool t
      → Triple t
          (install_files h cert_pem key_pem pool)
          (λ x u. IsPublished pool u × Live pool u)
          (λ e. IsOrdered)
  unfolding install_files
  install_files-IsPublished pool t m p =
      Triple-bind _ _ _ t _ _ (put_file-Ran pool _ _ t p) (λ x u q.
        Triple-map u _ (put_key-HasFiles pool (truthy h.key_path) t u q.0 q.1)
          (λ y v r. (written m r.0, r.1)) (λ e v r. r))

  install_store-IsPublished :
      (pool : Pool) (t : List Wire)
      → (h.mode == mode_cert_store) ≡ true
      → Live pool t
      → Triple t
          (install_store h cert_pem key_pem pool)
          (λ x u. IsPublished pool u × Live pool u)
          (λ e. IsOrdered)
  unfolding install_store
  install_store-IsPublished pool t m p =
      Triple-bind (λ certs u. (o.load_certificates cert_pem ≡ ok certs) × Live pool u) _ _ t _ _
        (Triple-lift _ _ t _ (λ a e. (e, p)) (λ x e. p.1))
        (λ certs u1 p1.
          Triple-bind (λ key u. (o.load_private_key key_pem ≡ ok key) × Live pool u) _ _ u1 _ _
            (Triple-lift _ _ u1 _ (λ a e. (e, p1.1)) (λ x e. p1.1.1))
            (λ key u2 p2.
              Triple-bind (λ password u. Live pool u) _ _ u2 _ _
                (unfold token in record { ended = p2.1 })
                (λ password u3 p3.
                  Triple-bind (λ cert u. (head certs ≡ ok cert) × Live pool u) _ _ u3 _ _
                    (Triple-lift _ _ u3 _ (λ a e. (e, p3)) (λ x e. p3.1))
                    (λ cert u4 p4.
                      Triple-bind
                        (λ pfx u.
                          (o.serialize key cert (others certs) password ≡ ok pfx) × Live pool u)
                        _ _ u4 _ _ (Triple-lift _ _ u4 _ (λ a e. (e, p4.1)) (λ x e. p4.1.1))
                        (λ pfx u5 p5.
                          Triple-bind _ _ _ u5 _ _
                            (invoke_any-Ran (store_invocation h pool pfx password) u5 (λ v. tt)
                              p5.1)
                            (λ x u6 p6. Triple-pure _ _ u6 _ (
                              stored pfx password p6.0.0 m
                                  (record {
                                    certs = certs;
                                    key = key;
                                    cert = cert;
                                    loaded = p1.0;
                                    loaded_key = p2.0;
                                    first = p4.0;
                                    serialized = p5.0;
                                  })
                                  p6.0.1,
                              p6.1,
                            )))))))

  publish-IsPublished :
      (pool : Pool) (t : List Wire)
      → Live pool t
      → Triple t
          (publish h cert_pem key_pem pool)
          (λ x u. IsPublished pool u × Live pool u)
          (λ e. IsOrdered)
  unfolding publish
  publish-IsPublished pool t p =
      Triple-if _ _ t _ _ _ (λ m. install_store-IsPublished pool t m p)
        (λ m. install_files-IsPublished pool t m p)

  publish-IsReady :
      (pool : Pool) (t : List Wire)
      → IsOrdered t
      → Triple t
          (with_pool pool (publish h cert_pem key_pem))
          (λ x u. IsReady u × IsOrdered u)
          (λ e. IsOrdered)
  unfolding with_pool
  publish-IsReady pool t p =
      Triple-bind (λ x u. Live pool u) _ _ t _ _
        (Triple-ask _ _ t _ _ (λ x. ((refl, refl), p)) (λ e. p))
        (λ x u q.
          Triple-ensure _ _ _ _ u _ _ (publish-IsPublished pool u q)
            (λ a v r.
              Triple-ask _ _ v _ _
                (λ b. (record { pool = pool; earlier = v; shape = refl; published = r.0 }, r.1.1))
                (λ e. r.1.1))
            (λ e v r. Triple-ask _ _ v _ _ (λ b. r) (λ d. r)))

  abbrev pub hook_invocation : Pool → String → String → Invocation
  hook_invocation pool script thumbprint = record {
    pool = pool;
    script = run_post_install;
    parameters = ("Script", text script) ∷ ("Thumbprint", text thumbprint) ∷ [];
    secure_parameters = [];
  }

  -- The script of the operator has run, in a pool of its own that is closed since.
  pub record IsHooked (script : String) (t : List Wire) : Type 0 where
    pub pool : Pool
    pub thumbprint : String
    pub named : sha1_thumbprint cert_pem ≡ ok thumbprint
    pub earlier : List Wire
    pub middle : List Wire
    pub shape : t ≡ closes pool (ok tt) ∷ middle
    pub ran : Ran (hook_invocation pool script thumbprint) earlier middle
    pub opened : IsOpened pool earlier

  abbrev pub IsDone : Option String → List Wire → Type 0
  IsDone none t = IsReady t
  IsDone (some script) t = IsHooked script t

  -- What the hook leaves before its pool is closed.
  record IsRun (script : String) (pool : Pool) (t : List Wire) : Type 0 where
    thumbprint : String
    named : sha1_thumbprint cert_pem ≡ ok thumbprint
    earlier : List Wire
    ran : Ran (hook_invocation pool script thumbprint) earlier t
    opened : IsOpened pool earlier
    staged : IsOrdered t

  hook-IsRun :
      (script : String) (pool : Pool) (t : List Wire)
      → IsOpened pool t
      → Live pool t
      → Triple t (hook script cert_pem pool) (λ x. IsRun script pool) (λ e. IsOrdered)
  unfolding hook
  hook-IsRun script pool t q p =
      Triple-bind
        (λ thumbprint u. (sha1_thumbprint cert_pem ≡ ok thumbprint) × IsOpened pool u × Live pool u)
        _ _ t _ _ (Triple-lift _ _ t _ (λ a e. (e, q, p)) (λ x e. p.1))
        (λ thumbprint u r.
          Triple-bind _ _ _ u _ _
            (invoke-Ran (hook_invocation pool script thumbprint) u refl r.1 r.2)
            (λ x v d. Triple-pure _ _ v _ (record {
              thumbprint = thumbprint;
              named = r.0;
              earlier = u;
              ran = d.0;
              opened = r.1;
              staged = d.1.1;
            })))

  post_install-IsDone :
      (client : Wsman) (script : Option String) (t : List Wire)
      → IsReady t
      → IsOrdered t
      → Triple t
          (post_install h client cert_pem script)
          (λ x u. IsDone script u × IsOrdered u)
          (λ e. IsOrdered)
  unfolding post_install with_pool
  post_install-IsDone client none t q p = Triple-pure _ _ t _ (q, p)
  post_install-IsDone client (some script) t q p =
      Triple-bind (λ c u. IsReady u × IsOrdered u) _ _ t _ _
        (Triple-lift _ _ t _ (λ a e. (q, p)) (λ x e. p))
        (λ configuration u r.
          let pool : Pool = record {
            wsman = client;
            configuration_name = some configuration;
            host = unattended_host;
          } in
          Triple-bind (λ x v. IsOpened pool v × Live pool v) _ _ u _ _
            (Triple-ask _ _ u _ _
              (λ x. (record { earlier = u; shape = refl; ready = r.0 }, ((refl, refl), r.1)))
              (λ e. r.1))
            (λ x v d.
              Triple-ensure _ _ _ _ v _ _ (hook-IsRun script pool v d.0 d.1)
                (λ a z c.
                  Triple-ask _ _ z _ _
                    (λ b. (
                      record {
                        pool = pool;
                        thumbprint = c.thumbprint;
                        named = c.named;
                        earlier = c.earlier;
                        middle = z;
                        shape = refl;
                        ran = c.ran;
                        opened = c.opened;
                      },
                      c.staged,
                    ))
                    (λ e. c.staged))
                (λ e z c. Triple-ask _ _ z _ _ (λ b. c) (λ b. c))))

  -- `install` runs every script in a pool that it opened and has not closed since, and the script of the operator
  -- directly after the opening of its pool, when the certificate and the key were
  -- published by scripts that ran without error in an earlier pool, which was closed: to the store, in a blob of both, or to the files, the certificate first. When it
  -- returns, this has happened, the script, if one is set, has run without error with the certificate's thumbprint in its pool, which is closed, and the client is
  -- closed.
  pub install-IsOrdered :
      (t : List Wire)
      → IsOrdered t
      → Triple t
          (install h cert_pem key_pem)
          (λ x u.
            ((v : List Wire) × (u ≡ leaves ∷ v) × IsDone (truthy h.post_install_script) v)
            × IsOrdered u)
          (λ e. IsOrdered)
  unfolding install install_known deliver
  install-IsOrdered t p =
      Triple-if _ _ t (known_mode h) (install_known h cert_pem key_pem) (raise (unknown_mode h))
        (λ b. Triple-bind _ _ _ t _ _ (verify-IsOrdered.run t p) (λ x u q.
          Triple-bind _ _ _ u _ _ (wsman-IsOrdered.run u q) (λ client v r.
            Triple-finally _ _ v leaves _ (
              Triple-bind _ _ _ v _ _ (publish-IsReady (default_pool client) v r) (λ y z d.
                Triple-map z _ (post_install-IsDone client (truthy h.post_install_script) z d.0 d.1)
                  (λ a s c. ((s, refl, c.0), c.1)) (λ e s c. c))))))
        (λ b. Triple-raise _ _ t _ p)
