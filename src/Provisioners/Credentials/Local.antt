-- ===== src/Provisioners/Credentials/Local.antt =====
-- Which Secret the credentials come from.
use cert_publisher.Prelude.{
  String, ◌≡◌, Option, none, some, ◌∷◌, Bool, true, false, Bool-cases, inl, inr, refl, ◌⊎◌, [],
  subst, sym, ◌==◌,
}
use cert_publisher.Prelude.Keys.{Dict, get}
use cert_publisher.Utils.{and_then, and_then-eq-ok}
use cert_publisher.Resources.{Bytes, Secret}
use cert_publisher.Effects.{
  Result, ok, raised, World, State, Exception, value_error, reads_secret, pure, raise, lift,
  perform, try_except, ◌>>=◌,
}
use cert_publisher.Kube.{get_secret, secret_data, decode_values, has_status, or_none}
use cert_publisher.Provisioners.Credentials.{
  Credentials, Auth, resolve_credentials, resolve_named, use_secret, credentials_of, field, decoded,
}

abbrev pub named : Option Auth → Option String
named none = none
named (some auth) = auth.secret_ref

-- The value of this key in base64, if the Secret has one.
abbrev pub encoded : String → Secret → Option String
encoded name secret = elim secret.contents [ none ↦ none | some contents ↦ get name contents ]

-- A setting that the Secret does not have, or the text of its value.
abbrev pub IsRead : ⦃w : World⦄ → (Bytes → Result String) → Secret → String → Option String → Type 0
IsRead ⦃w⦄ decode secret name setting =
    ((encoded name secret ≡ none) × (setting ≡ none))
    ⊎ ((value : String) × (bytes : Bytes) × (text : String) × (encoded name secret ≡ some value)
        × (w.b64decode value ≡ ok bytes)
        × (decode bytes ≡ ok text)
        × (setting ≡ some text))

-- Each setting comes from the key of its own.
pub record AreRead ⦃w : World⦄ (decode : Bytes → Result String) (secret : Secret) (c : Credentials)
    : Type 0 where
  pub password : IsRead decode secret "password" c.password
  pub private_key : IsRead decode secret "privateKey" c.private_key
  pub passphrase : IsRead decode secret "passphrase" c.passphrase

-- Without a name nothing is asked and the error is a ValueError; with one, the one call reads the Secret of this name in this namespace, and credentials, if any, are read from its answer.
abbrev pub IsLocal :
    ⦃w : World⦄
    → (Bytes → Result String)
    → Option String
    → String
    → State
    → Result Credentials × State
    → Type 0
IsLocal decode none namespace s (r, t) =
    (t ≡ s) × ((e : Exception) × (r ≡ raised e) × (e.kind ≡ value_error))
IsLocal ⦃w⦄ decode (some name) namespace s (r, t) =
    (b : Bool) × (t ≡ record s {
      history = record { call = reads_secret namespace name; succeeded = b } ∷ s.history;
    })
    × ((c : Credentials)
        → r ≡ ok c
        → (secret : Secret) × (w.read_secret s.history namespace name ≡ ok secret)
          × AreRead decode secret c)

ok_injective : {A : Type 0} {a b : A} → ◌≡◌ {A = Result A} (ok a) (ok b) → a ≡ b
ok_injective h = cc

module _ ⦃w : World⦄ where
  -- What a key leads to in the decoded values.
  abbrev IsDecoded : Dict String → Dict Bytes → String → Type 0
  IsDecoded contents values name =
      ((get name contents ≡ none) × (get name values ≡ none))
      ⊎ ((value : String) × (bytes : Bytes) × (get name contents ≡ some value)
          × (w.b64decode value ≡ ok bytes)
          × (get name values ≡ some bytes))

  IsDecoded-∷ :
      (k v : String) (value : Bytes) (contents : Dict String) (values : Dict Bytes) (name : String)
      → w.b64decode v ≡ ok value
      → IsDecoded contents values name
      → IsDecoded ((k, v) ∷ contents) ((k, value) ∷ values) name
  unfolding get
  IsDecoded-∷ k v value contents values name d h = elim (Bool-cases (k == name)) [
    | inl b ↦ simp b (inr (v, value, refl, d, refl))
    | inr b ↦ simp b h
  ]

  get-decode_values :
      (contents : Dict String) (values : Dict Bytes) (name : String)
      → decode_values contents ≡ ok values
      → IsDecoded contents values name
  unfolding decode_values get
  get-decode_values [] values name e =
      inl (refl, subst (λ d. get name d ≡ none) (ok_injective e) refl)
  get-decode_values ((k, v) ∷ contents) values name e =
      let (value, d, f) = and_then-eq-ok (w.b64decode v) _ e in
      let (rest, g, h) = and_then-eq-ok (decode_values contents) _ f in
      subst (λ x. IsDecoded ((k, v) ∷ contents) x name) (ok_injective h)
        (IsDecoded-∷ k v value contents rest name d (get-decode_values contents rest name g))

  get-secret_data :
      (contents : Option (Dict String)) (values : Dict Bytes) (name : String)
      → secret_data (record { contents = contents }) ≡ ok values
      → (let secret : Secret = record { contents = contents } in
          ((encoded name secret ≡ none) × (get name values ≡ none))
          ⊎ ((value : String) × (bytes : Bytes) × (encoded name secret ≡ some value)
              × (w.b64decode value ≡ ok bytes)
              × (get name values ≡ some bytes)))
  unfolding secret_data get
  get-secret_data none values name e =
      inl (refl, subst (λ d. get name d ≡ none) (ok_injective e) refl)
  get-secret_data (some contents) values name e = get-decode_values contents values name e

module _ ⦃w : World⦄ (decode : Bytes → Result String) where
  field-IsRead :
      (secret : Secret) (values : Dict Bytes) (name : String) (setting : Option String)
      → secret_data secret ≡ ok values
      → field decode values name ≡ ok setting
      → IsRead decode secret name setting
  unfolding field decoded
  field-IsRead secret values name setting e f =
      elim (get-secret_data secret.contents values name e) [
        | inl (absent, n) ↦
            inl (absent, sym (ok_injective (subst (λ x. decoded decode x ≡ ok setting) n f)))
        | inr (value, bytes, present, d, n) ↦
            let (text, t, u) =
              and_then-eq-ok (decode bytes) _ (subst (λ x. decoded decode x ≡ ok setting) n f) in
            inr (value, bytes, text, present, d, t, sym (ok_injective u))
      ]

  credentials-AreRead :
      (secret : Secret) (c : Credentials)
      → and_then (secret_data secret) (credentials_of decode) ≡ ok c
      → AreRead decode secret c
  unfolding credentials_of
  credentials-AreRead secret c e =
      let (values, d, e1) = and_then-eq-ok (secret_data secret) _ e in
      let (password, p, e2) = and_then-eq-ok (field decode values "password") _ e1 in
      let (private_key, k, e3) = and_then-eq-ok (field decode values "privateKey") _ e2 in
      let (passphrase, q, e4) = and_then-eq-ok (field decode values "passphrase") _ e3 in
      subst (AreRead decode secret) (ok_injective e4) (record {
        password = field-IsRead secret values _ _ d p;
        private_key = field-IsRead secret values _ _ d k;
        passphrase = field-IsRead secret values _ _ d q;
      })

  -- What a read of the Secret leads to, by its answer.
  read_lem :
      (namespace name : String) (s : State) (x : Result Secret)
      → w.read_secret s.history namespace name ≡ x
      → IsLocal decode (some name) namespace s (resolve_named decode (some name) namespace s)
  unfolding resolve_named use_secret get_secret or_none try_except perform pure raise lift ◌>>=◌
  read_lem namespace name s (ok secret) e =
      simp e (true, refl, λ c h. (secret, refl, credentials-AreRead secret c h))
  read_lem namespace name s (raised x) e = elim (Bool-cases (has_status 404 x.kind)) [
    | inl b ↦ simp (e, b) (false, refl, λ c h. absurd (unwanted h))
    | inr b ↦ simp (e, b) (false, refl, λ c h. absurd (unwanted h))
  ]
    where
      unwanted :
          {e : Exception} {c : Credentials} → ◌≡◌ {A = Result Credentials} (raised e) (ok c) → ⊥
      unwanted h = cc

  resolve_named-IsLocal :
      (ref : Option String) (namespace : String) (s : State)
      → IsLocal decode ref namespace s (resolve_named decode ref namespace s)
  unfolding resolve_named raise
  resolve_named-IsLocal none namespace s = (refl, (_, refl, refl))
  resolve_named-IsLocal (some name) namespace s = read_lem namespace name s _ refl

  -- Credentials are read from one Secret, the one that `auth.secretRef` names, in the namespace of the publication. Without a `secretRef` no call is made and the outcome is a ValueError; with one, the only call is the read of this Secret, and credentials are returned only if the Secret is there. Their password, private key and passphrase
  -- are then the texts of its keys `password`, `privateKey` and `passphrase`, decoded from base64 and then from bytes, each absent exactly where the key is.
  pub resolve_credentials-IsLocal :
      (auth : Option Auth) (namespace : String) (s : State)
      → IsLocal decode (named auth) namespace s (resolve_credentials decode auth namespace s)
  unfolding resolve_credentials
  resolve_credentials-IsLocal none namespace s = resolve_named-IsLocal none namespace s
  resolve_credentials-IsLocal (some auth) namespace s =
      resolve_named-IsLocal auth.secret_ref namespace s
