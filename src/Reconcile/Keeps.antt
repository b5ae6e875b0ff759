-- ===== src/Reconcile/Keeps.antt =====
-- Invariants of actions: one rule for each way to build an action, and for the actions that touch
-- neither the host's key nor its certificate.
use cert_publisher.Prelude.{
  ℕ, String, ◌≡◌, sym, inl, inr, Bool, true, false, none, some, subst, if◌then◌else◌,
}
use cert_publisher.Resources.{Publication, Status, StatusPatch}
use cert_publisher.Json.{Fields}
use cert_publisher.Effects.{
  Body, Exception, Result, ok, raised, World, Call, generates_csr, imports, installs,
  creates_certificate, patches_certificate, creates_request, History, State, Action, pure, raise,
  lift, perform, get_publication, now_utc, try_except, except_value_error, ◌>>=◌, reads_request,
  reads_certificate, reads_secret, deletes_request, patches_status, posts_event,
}
use cert_publisher.Effects.Hoare.{
  Post, called, Post-bind, Post-perform, Post-try_except, Post-except_value_error,
}
use cert_publisher.Kube.{
  create_certificate, patch_certificate, has_status, get_certificate, get_secret,
  get_certificate_request, delete_certificate_request,
}
use cert_publisher.Status.{Options, merge, set_status}
use cert_publisher.Status.Outcome.{IsStored, IsDropped, set_status_lem, Reported-Post}

-- Calls that change neither the host's key nor its certificate, and create no request.
abbrev pub IsHarmless : Call → Type 0
IsHarmless (generates_csr cn names) = ⊥
IsHarmless (imports cert) = ⊥
IsHarmless (installs cert key) = ⊥
IsHarmless (creates_request namespace body) = ⊥
IsHarmless _ = Unit

-- What readings of the clock, harmless calls and writes of the status do not disturb.
pub record Stable (P : State → Type 0) : Type 0 where
  pub read : (s : State) (n : ℕ) → P s → P (record s { readings = n })
  pub call : (c : Call) (b : Bool) (s : State) → IsHarmless c → P s → P (called c b s)
  pub write :
      (s : State) (status : Status)
      → P s
      → P (record s { publication = record s.publication { status = status } })

-- What readings of the clock do not disturb.
pub record Reads (P : State → Type 0) : Type 0 where
  pub read : (s : State) (n : ℕ) → P s → P (record s { readings = n })

pub Stable-Reads : {P : State → Type 0} → Stable P → Reads P
Stable-Reads st = record { read = st.read }

-- `P` holds after the action, whether it returned or raised.
pub record Keeps {A : Type 0} (P : State → Type 0) (m : Action A) : Type 0 where
  pub at : (s : State) → P s → Post (λ _ t. P t) (λ _ t. P t) (m s)

module _ {A : Type 0} {P : State → Type 0} where
  pub Keeps-pure : (a : A) → Keeps P (pure a)
  unfolding pure
  Keeps-pure a = record { at = λ s h. h }

  pub Keeps-raise : (e : Exception) → Keeps P (raise {A = A} e)
  unfolding raise
  Keeps-raise e = record { at = λ s h. h }

  pub Keeps-lift : (r : Result A) → Keeps P (lift r)
  unfolding lift
  Keeps-lift (ok a) = record { at = λ s h. h }
  Keeps-lift (raised e) = record { at = λ s h. h }

  pub Keeps-if : (b : Bool) (m n : Action A) → Keeps P m → Keeps P n → Keeps P (if b then m else n)
  Keeps-if true m n km kn = km
  Keeps-if false m n km kn = kn

  pub Keeps-try_except :
      (m : Action A) (h : Exception → Action A)
      → Keeps P m
      → ((e : Exception) → Keeps P (h e))
      → Keeps P (try_except m h)
  Keeps-try_except m h km kh = record {
    at = λ s p. Post-try_except _ _ (λ e t. P t) m h s (km.at s p) (λ e t q. (kh e).at t q);
  }

  pub Keeps-except_value_error :
      (m h : Action A) → Keeps P m → Keeps P h → Keeps P (except_value_error m h)
  Keeps-except_value_error m h km kh = record {
    at = λ s p. Post-except_value_error _ _ m h s (km.at s p) (λ e t q. kh.at t q);
  }

  pub Keeps-perform :
      Stable P
      → (c : Call) (answer : History → Result A) → IsHarmless c
      → Keeps P (perform c answer)
  Keeps-perform st c answer h = record {
    at = λ s p.
        Post-perform _ _ c answer s (λ a e. st.call c true s h p) (λ e. st.call c false s h p);
  }

pub Keeps-get_publication : {P : State → Type 0} → Keeps P get_publication
unfolding get_publication
Keeps-get_publication = record { at = λ s h. h }

module _ {A B : Type 0} {P : State → Type 0} where
  pub Keeps-bind :
      (m : Action A) (f : A → Action B) → Keeps P m → ((a : A) → Keeps P (f a)) → Keeps P (m >>= f)
  Keeps-bind m f km kf = record {
    at = λ s p. Post-bind (λ _ t. P t) _ _ m f s (km.at s p) (λ a t q. (kf a).at t q);
  }

module _ ⦃w : World⦄ {P : State → Type 0} (re : Reads P) where
  pub Keeps-now_utc : Keeps P now_utc
  unfolding now_utc
  Keeps-now_utc = record { at = λ s p. re.read s _ p }

module _ ⦃w : World⦄ {P : State → Type 0} (st : Stable P) where
  to_state :
      (t : State) (p : Publication) (h : History)
      → t.publication ≡ p
      → t.history ≡ h
      → P (record { publication = p; history = h; readings = t.readings })
      → P t
  to_state t p h e f =
      subst P (λ i. record { publication = sym e i; history = sym f i; readings = t.readings })

  pub dropped : (s t : State) (patch : StatusPatch) → P s → IsDropped s patch t → P t
  dropped s t patch p (e, f) = to_state t _ _ e f (
      st.call (patches_status s.publication.namespace s.publication.name patch) false
        (record s { readings = t.readings }) tt (st.read s _ p))

  pub stored : (s t : State) (patch : StatusPatch) → P s → IsStored s patch t → P t
  stored s t patch p (e, inl (_, f)) = to_state t _ _ e f (
      st.write _ (merge patch s.publication.status) (
        st.call (patches_status s.publication.namespace s.publication.name patch) true
          (record s { readings = t.readings }) tt (st.read s _ p)))
  stored s t patch p (e, inr (b, _, f)) = to_state t _ _ e f (
      st.call (posts_event _ _) b _ tt (
        st.write _ (merge patch s.publication.status) (
          st.call (patches_status s.publication.namespace s.publication.name patch) true
            (record s { readings = t.readings }) tt (st.read s _ p))))

  pub Keeps-set_status :
      (phase message : String) (o : Options) → Keeps P (set_status phase message o)
  Keeps-set_status phase message o = record {
    at = λ s p.
        let (patch, i, r) = set_status_lem phase message o s in
        Reported-Post _ _ s o patch _ r (λ _ t k. stored s t patch p k)
          (λ _ t _ k. dropped s t patch p k) (λ _ t _ k. dropped s t patch p k);
  }

  Keeps-or_none :
      {A : Type 0} (m : Action A)
      → Keeps P m
      → Keeps P (
          try_except
            (m >>= λ a. pure (some a))
            (λ e. if has_status 404 e.kind then pure none else raise e))
  Keeps-or_none m k =
      Keeps-try_except _ _ (Keeps-bind _ _ k (λ a. Keeps-pure _))
        (λ e. Keeps-if _ _ _ (Keeps-pure _) (Keeps-raise e))

  pub Keeps-get_certificate_request :
      (namespace name : String) → Keeps P (get_certificate_request namespace name)
  unfolding get_certificate_request
  Keeps-get_certificate_request namespace name =
      Keeps-or_none _ (Keeps-perform st (reads_request namespace name) _ tt)

  pub Keeps-get_certificate : (namespace name : String) → Keeps P (get_certificate namespace name)
  unfolding get_certificate
  Keeps-get_certificate namespace name =
      Keeps-or_none _ (Keeps-perform st (reads_certificate namespace name) _ tt)

  pub Keeps-get_secret : (namespace name : String) → Keeps P (get_secret namespace name)
  unfolding get_secret
  Keeps-get_secret namespace name =
      Keeps-or_none _ (Keeps-perform st (reads_secret namespace name) _ tt)

  pub Keeps-delete_certificate_request :
      (namespace name : String) → Keeps P (delete_certificate_request namespace name)
  unfolding delete_certificate_request
  Keeps-delete_certificate_request namespace name =
      Keeps-try_except _ _ (Keeps-perform st (deletes_request namespace name) _ tt)
        (λ e. Keeps-if _ _ _ (Keeps-pure _) (Keeps-raise e))

  pub Keeps-create_certificate :
      (namespace : String) (body : Body) → Keeps P (create_certificate namespace body)
  unfolding create_certificate
  Keeps-create_certificate namespace body =
      Keeps-perform st (creates_certificate namespace body) _ tt

  pub Keeps-patch_certificate :
      (namespace name : String) (spec : Fields) → Keeps P (patch_certificate namespace name spec)
  unfolding patch_certificate
  Keeps-patch_certificate namespace name spec =
      Keeps-perform st (patches_certificate namespace name spec) _ tt

pub ruleset keeps_rules = (
  Keeps-pure, Keeps-raise, Keeps-lift, Keeps-if, Keeps-bind, Keeps-try_except,
  Keeps-except_value_error, Keeps-perform, Keeps-get_publication, Stable-Reads, Keeps-now_utc,
  Keeps-set_status, Keeps-get_certificate_request, Keeps-get_certificate, Keeps-get_secret,
  Keeps-delete_certificate_request, Keeps-create_certificate, Keeps-patch_certificate,
)
