-- ===== src/Reconcile/Policy.antt =====
-- When a pass may touch the host's key, the host's certificate and the signing requests: conditions
-- on the calls that came before, in the same pass.
use cert_publisher.Prelude.{
  ◌⊎◌, String, ◌≡◌, refl, inl, inr, Bool, true, false, ◌&&◌, ◌||◌, Option, none, some, [], ◌∷◌,
  arith, ◌==◌,
}
use cert_publisher.Resources.{Bytes, X509, Spec, StatusPatch, Setting, unset, set_to}
use cert_publisher.Effects.{
  ok, World, Call, generates_csr, imports, installs, checks_current, creates_request,
  patches_status, Event, History, State,
}
use cert_publisher.Effects.Hoare.{Post}
use cert_publisher.Utils.{leaf_certificate}
use cert_publisher.Status.{Options, set_status}
use cert_publisher.Status.Outcome.{IsPatch, IsStored, Reported-Post, set_status_lem, sent}
use cert_publisher.Reconcile.Names.{Covers}
use cert_publisher.Reconcile.Keeps.{Stable, IsHarmless, stored, dropped}

abbrev pub any_event : (Event → Bool) → History → Bool
any_event f [] = false
any_event f (e ∷ past) = f e || any_event f past

is_some : {A : Type 0} → Option A → Bool
is_some none = false
is_some (some a) = true

abbrev call_stamps : Call → Bool
call_stamps (patches_status namespace name patch) = is_some patch.last_signing_time
call_stamps _ = false

-- A status write that the server took, with a time of signing in it.
unfoldable pub stores_stamp : Event → Bool
unfolding is_some
stores_stamp e = e.succeeded && call_stamps e.call

abbrev setting_names : String → Setting → Bool
setting_names request unset = false
setting_names request (set_to none) = false
setting_names request (set_to (some n)) = n == request

abbrev call_names : String → Call → Bool
call_names request (patches_status namespace name patch) =
    setting_names request patch.pending_request_name
call_names request _ = false

-- A status write that the server took, with this name of the pending request in it.
unfoldable pub stores_name : String → Event → Bool
stores_name request e = e.succeeded && call_names request e.call

abbrev call_rotates : Call → Bool
call_rotates (generates_csr common_name names) = true
call_rotates _ = false

-- A call for a CSR, with any outcome: the host's key may have been rotated.
unfoldable pub rotates : Event → Bool
rotates e = call_rotates e.call

-- The host was asked whether it has this certificate, and answered.
abbrev pub Asked : Bytes → History → Type 0
Asked cert_pem [] = ⊥
Asked cert_pem (e ∷ past) =
    (e ≡ record { call = checks_current cert_pem; succeeded = true }) ⊎ Asked cert_pem past

module _ ⦃w : World⦄ where
  -- What has to hold before a call. A CSR is asked for once in a pass, after the time of signing was
  -- stored. A certificate that is imported can be parsed and covers every name of the publication. A
  -- request is created after its name was stored. A certificate that is installed with its key can
  -- be parsed, and the host was asked before whether it already has it.
  abbrev pub Permitted : Spec → Call → History → Type 0
  Permitted spec (generates_csr common_name names) past =
      (any_event stores_stamp past ≡ true) × (any_event rotates past ≡ false)
  Permitted spec (imports cert_pem) past =
      (cert : X509) × (leaf_certificate cert_pem ≡ ok cert) × Covers spec.dns_names cert.dns_names
  Permitted spec (creates_request namespace body) past =
      any_event (stores_name body.name) past ≡ true
  Permitted spec (installs cert_pem key_pem) past =
      Asked cert_pem past × ((cert : X509) × (leaf_certificate cert_pem ≡ ok cert))
  Permitted spec _ past = Unit

  abbrev pub IsSafe : Spec → History → Type 0
  IsSafe spec [] = Unit
  IsSafe spec (e ∷ past) = Permitted spec e.call past × IsSafe spec past

  pub record IsSound (spec : Spec) (s : State) : Type 0 where
    pub spec_eq : s.publication.spec ≡ spec
    pub safe : IsSafe spec s.history

  -- No CSR was asked for yet.
  pub record IsFresh (spec : Spec) (s : State) : Type 0 where
    pub sound : IsSound spec s
    pub unrotated : any_event rotates s.history ≡ false

  harmless-Permitted :
      (spec : Spec) (c : Call) (past : History) → IsHarmless c → Permitted spec c past
  harmless-Permitted spec (generates_csr cn names) past h = absurd h
  harmless-Permitted spec (imports cert) past h = absurd h
  harmless-Permitted spec (installs cert key) past h = absurd h
  harmless-Permitted spec (creates_request namespace body) past h = absurd h
  harmless-Permitted spec _ past h = tt

  pub harmless-keeps_key :
      (c : Call) (b : Bool) → IsHarmless c → rotates (record { call = c; succeeded = b }) ≡ false
  unfolding rotates
  harmless-keeps_key (generates_csr cn names) b h = absurd h
  harmless-keeps_key _ b h = refl

  pub IsSound-Stable : (spec : Spec) → Stable (IsSound spec)
  IsSound-Stable spec = record {
    read = λ s n i. record { spec_eq = i.spec_eq; safe = i.safe };
    call = λ c b s h i. record {
      spec_eq = i.spec_eq;
      safe = (harmless-Permitted spec c s.history h, i.safe);
    };
    write = λ s status i. record { spec_eq = i.spec_eq; safe = i.safe };
  }

  pub IsFresh-Stable : (spec : Spec) → Stable (IsFresh spec)
  IsFresh-Stable spec =
      let st = IsSound-Stable spec in
      record {
        read = λ s n i. record { sound = st.read s n i.sound; unrotated = i.unrotated };
        call = λ c b s h i. record {
          sound = st.call c b s h i.sound;
          unrotated = rw (harmless-keeps_key c b h) i.unrotated;
        };
        write = λ s status i. record { sound = st.write s status i.sound; unrotated = i.unrotated };
      }

  stored-any_event :
      (f : Event → Bool) (s t : State) (patch : StatusPatch)
      → IsStored s patch t
      → f (sent s patch true) ≡ true
      → any_event f t.history ≡ true
  stored-any_event f s t patch (_, inl (_, h)) e = rw h (simp e)
  stored-any_event f s t patch (_, inr (b, _, h)) e = rw h (ground arith)

  -- After a strict write that returned, the server has taken a patch as it was asked for.
  pub set_status-recorded :
      {P : State → Type 0}
      → Stable P
      → (f : Event → Bool) (phase message : String) (o : Options) (s : State) → P s
      → o.strict ≡ true
      → ((patch : StatusPatch)
          → IsPatch s.publication phase message o patch
          → f (sent s patch true) ≡ true)
      → Post
          (λ _ t. P t × (any_event f t.history ≡ true))
          (λ _ t. P t)
          (set_status phase message o s)
  set_status-recorded st f phase message o s p strict k =
      let (patch, i, r) = set_status_lem phase message o s in
      Reported-Post _ _ s o patch _ r
        (λ _ t h. (stored st s t patch p h, stored-any_event f s t patch h (k patch i)))
        (λ _ t lax d. absurd (contradiction o.strict strict lax))
        (λ _ t _ d. dropped st s t patch p d)
    where
      contradiction : (b : Bool) → b ≡ true → b ≡ false → ⊥
      contradiction b e f = cc
