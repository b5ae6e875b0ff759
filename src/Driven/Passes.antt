-- ===== src/Driven/Passes.antt =====
-- Whole passes over a host that is reached by SSH.
use cert_publisher.Prelude.{
  ℕ, String, true, false, Option, none, some, ◌≡◌, ◌⊎◌, refl, inl, inr, ◌==◌, Bool-cases, [], sym,
  ◌∙◌,
}
use cert_publisher.Resources.{Bytes, Publication, ManagedCertificate, Secret}
use cert_publisher.Json.{Fields}
use cert_publisher.Effects.{World, State, History, Result, ok, reads_secret, Action, pure, raise}
use cert_publisher.Effects.Hoare.{
  Post, Post-bind, Post-lift, Post-map, Post-perform, Post-get_publication, Post-try_except,
}
use cert_publisher.Kube.{get_secret, or_none, has_status, secret_data, decode_values}
use cert_publisher.Reconcile.Keeps.{
  Keeps, Keeps-get_certificate, Keeps-create_certificate, Keeps-patch_certificate, Stable,
}
use cert_publisher.Reconcile.SecretKeyed.{
  await, deliver, key_pair, follow_drift, ensure, reconcile_secret_keyed,
}
use cert_publisher.Reconcile.Renewal.{Requeue, awaiting_issuance_requeue}
use cert_publisher.Provisioners.Ssh.{Outside, Ssh}
use cert_publisher.Provisioners.Ssh.Published.{IsFaithful}
use cert_publisher.Driven.{drive}
use cert_publisher.Driven.Converges.{by_ssh, IsSettled, IsSettled-Stable, deliver-IsSettled}
use cert_publisher.Driven.Installing.{
  concluded, IsUntouched, IsUntouched-Stable, IsInstalled, deliver-Installs,
}

-- Whatever Secret is read holds this pair.
abbrev pub Issues : World → Bytes × Bytes → Type 0
Issues w pair =
    (t : History) (namespace name : String) (secret : Secret)
    → w.read_secret t namespace name ≡ ok secret
    → key_pair ⦃w = w⦄ (some secret) ≡ ok (some pair)

ok_injective : {A : Type 0} {a b : A} → ◌≡◌ {A = Result A} (ok a) (ok b) → a ≡ b
ok_injective h = cc

-- A pass in a world that issues one pair: what holds of it when it holds of the delivery of the pair. `P` is
-- what the calls before leave true, `Q` and `R` what the pass comes to.
module _ ⦃w : World⦄ (cert_pem key_pem : Bytes) (issues : Issues w (cert_pem, key_pem))
    (P : State → Type 0) (Q : Requeue → State → Type 0) (R : State → Type 0) (st : Stable P)
    (pq : (s : State) → P s → Q (some awaiting_issuance_requeue) s) (pr : (s : State) → P s → R s)
    (delivers : (s : State)
      → P s
      → Post Q (λ _ t. R t) (deliver (some (cert_pem, key_pem)) s)) where
  loosened :
      {A : Type 0} (m : Action A)
      → Keeps P m
      → (s : State) → P s
      → Post (λ _ t. P t) (λ _ t. R t) (m s)
  loosened {A = A} m k s p =
      Post-map {A = A} (λ _ t. P t) (λ _ t. R t) {Q' = λ _ t. P t} {R' = λ _ t. P t} (m s)
        (k.at s p) (λ a t q. q) (λ e t. pr t)

  abbrev IsPair : Option Secret → Type 0
  IsPair x = (key_pair x ≡ ok none) ⊎ (key_pair x ≡ ok (some (cert_pem, key_pem)))

  get_secret-IsPair :
      (namespace name : String) (s : State)
      → P s
      → Post (λ x t. IsPair x × P t) (λ _ t. R t) (get_secret namespace name s)
  unfolding get_secret or_none pure raise key_pair
  get_secret-IsPair namespace name s p =
      Post-try_except _ _ (λ _ t. P t) _ _ s
        (Post-bind (λ secret t. IsPair (some secret) × P t) _ _ _ _ s
          (Post-perform _ _ _ _ s
            (λ secret e. (
              inr (issues s.history namespace name secret e),
              st.call (reads_secret namespace name) true s tt p,
            ))
            (λ e. st.call (reads_secret namespace name) false s tt p))
          (λ secret t q. q))
        (λ e t q. elim (Bool-cases (has_status 404 e.kind)) [
          | inl b ↦ simp b (inl refl, q)
          | inr b ↦ simp b (pr t q)
        ])

  waited : (message : String) (s : State) → P s → Post Q (λ _ t. R t) (await message s)
  unfolding await
  waited message s p = concluded P Q R st (some awaiting_issuance_requeue) pq pr _ message _ s p

  delivered :
      (pair : Option (Bytes × Bytes)) (s : State)
      → (pair ≡ none) ⊎ (pair ≡ some (cert_pem, key_pem))
      → P s
      → Post Q (λ _ t. R t) (deliver pair s)
  delivered pair s (inl e) p = rw e (unfold deliver in waited _ s p)
  delivered pair s (inr e) p = rw e (delivers s p)

  is_pair :
      (x : Result (Option (Bytes × Bytes))) (pair : Option (Bytes × Bytes))
      → (x ≡ ok none) ⊎ (x ≡ ok (some (cert_pem, key_pem)))
      → x ≡ ok pair
      → (pair ≡ none) ⊎ (pair ≡ some (cert_pem, key_pem))
  is_pair x pair (inl e) d = inl (ok_injective (sym d ∙ e))
  is_pair x pair (inr e) d = inr (ok_injective (sym d ∙ e))

  followed :
      (p : Publication) (drift : Option Fields) (s : State)
      → P s
      → Post Q (λ _ t. R t) (follow_drift p drift s)
  unfolding follow_drift
  followed p (some drift) s i =
      Post-bind (λ _ t. P t) _ _ _ _ s
        (loosened _ (Keeps-patch_certificate st p.namespace p.name drift) s i)
        (λ _ t j. waited _ t j)
  followed p none s i =
      Post-bind (λ x t. IsPair x × P t) _ _ _ _ s (get_secret-IsPair p.namespace _ s i)
        (λ secret t j.
          Post-lift _ _ (key_pair secret) _ t
            (λ pair e. delivered pair t (is_pair (key_pair secret) pair j.0 e) j.1) (λ e. pr t j.1))

  ensured :
      (p : Publication) (existing : Option ManagedCertificate) (s : State)
      → P s
      → Post Q (λ _ t. R t) (ensure p existing s)
  unfolding ensure
  ensured p none s i =
      Post-bind (λ _ t. P t) _ _ _ _ s (loosened _ (Keeps-create_certificate st p.namespace _) s i)
        (λ _ t j. waited _ t j)
  ensured p (some existing) s i = followed p _ s i

  passes : (s : State) → P s → Post Q (λ _ t. R t) (reconcile_secret_keyed s)
  unfolding reconcile_secret_keyed
  passes s i = Post-get_publication _ _ _ s (
      Post-bind (λ _ t. P t) _ _ _ _ s
        (loosened _ (Keeps-get_certificate st s.publication.namespace s.publication.name) s i)
        (λ existing t j. ensured s.publication existing t j))

module _ ⦃w : World⦄ ⦃o : Outside⦄ (h : Ssh) (cert_pem key_pem : Bytes)
    (issues : Issues w (cert_pem, key_pem)) where
  -- On a host that is reached by SSH and gives back what was written last, once its file holds the certificate of the
  -- issued Secret, a whole pass does not install again, whatever the API server answers otherwise and however the pass ends: the number of installations
  -- stays, and the file still holds the certificate.
  pub reconcile_secret_keyed-IsSettled :
      IsFaithful o
      → (n : ℕ) (s : State) → IsSettled h cert_pem n s
      → Post
          (λ _ t. IsSettled h cert_pem n t)
          (λ _ t. IsSettled h cert_pem n t)
          (reconcile_secret_keyed ⦃w = drive (by_ssh h) w⦄ s)
  unfolding key_pair secret_data decode_values
  reconcile_secret_keyed-IsSettled faithful n s i =
      passes ⦃w = drive (by_ssh h) w⦄ cert_pem key_pem issues (IsSettled h cert_pem n)
        (λ _. IsSettled h cert_pem n) (IsSettled h cert_pem n) (IsSettled-Stable h cert_pem n)
        (λ t p. p) (λ t p. p) (deliver-IsSettled h cert_pem faithful n key_pem) s i

  -- A pass over a host that is reached by SSH, with the key in another file than the certificate, which returns
  -- either waits for the certificate and has installed nothing, or has installed nothing because the host, asked in this pass,
  -- answered that it has the certificate, or has installed exactly once and leaves the certificate of the issued Secret in the host's file.
  pub reconcile_secret_keyed-Installs :
      (h.key_path == h.cert_path) ≡ false
      → (s : State)
      → Post
          (IsInstalled h cert_pem s.history)
          (λ _ t. Unit)
          (reconcile_secret_keyed ⦃w = drive (by_ssh h) w⦄ s)
  unfolding key_pair secret_data decode_values
  reconcile_secret_keyed-Installs apart s =
      passes ⦃w = drive (by_ssh h) w⦄ cert_pem key_pem issues (IsUntouched s.history)
        (IsInstalled h cert_pem s.history) (λ t. Unit) (IsUntouched-Stable s.history)
        (λ t p. inl (refl, p.counted)) (λ t p. tt)
        (deliver-Installs h cert_pem s.history apart key_pem) s
        (record { counted = refl; since = []; extended = refl })
