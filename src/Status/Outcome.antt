-- ===== src/Status/Outcome.antt =====
-- What `set_status` does, on every path: the patch that it sends, the copy in memory, the Event, and
-- who sees a failed write.
use cert_publisher.Prelude.{
  ℕ, suc, String, ◌≡◌, refl, inl, inr, ◌⊎◌, Bool, true, false, not, Option, none, some, ◌∷◌, ◌==◌,
  if◌then◌else◌, Bool-cases,
}
use cert_publisher.Prelude.Text.{truncate}
use cert_publisher.Resources.{Condition, Publication, StatusPatch}
use cert_publisher.Effects.{
  Exception, Result, ok, raised, World, patches_status, posts_event, KubeEvent, Event, State,
  Action, pure, raise, perform, get_publication, try_except, now_utc, ◌>>=◌,
}
use cert_publisher.Effects.Hoare.{Post}
use cert_publisher.Utils.{now_rfc3339}
use cert_publisher.Kube.{patch_publication_status, record_event}
use cert_publisher.Status.{
  error, merge_conditions, max_message, Options, merge, set_memory, same_outcome, reason_or_default,
  build_patch, stamp_if, after_patch, try_patch, set_status,
}
use cert_publisher.Status.Conditions.{IsReadyCondition, ready_condition_lem}

abbrev pub IsStamped : Bool → Option String → Type 0
IsStamped true o = (t : String) × (o ≡ some t)
IsStamped false o = o ≡ none

module _ ⦃w : World⦄ where
  -- The patch carries what the caller asked for.
  pub record IsPatch (p : Publication) (phase message : String) (o : Options) (patch : StatusPatch)
      : Type 0 where
    pub phase_eq : patch.phase ≡ phase
    pub message_eq : patch.message ≡ truncate max_message message
    pub reason_eq : patch.reason ≡ reason_or_default o.reason phase
    pub generation_eq : patch.observed_generation ≡ p.generation
    pub conditions_eq :
        (c : Condition) × IsReadyCondition p phase patch.reason patch.message o.ready c
        × (patch.conditions ≡ merge_conditions p c)
    pub fingerprint_eq : patch.published_fingerprint ≡ o.published_fingerprint
    pub published_at : IsStamped o.mark_published patch.last_published_time
    pub pending_eq : patch.pending_request_name ≡ o.pending_request
    pub signing_at : IsStamped o.mark_signing patch.last_signing_time
    pub retry_eq : patch.next_retry_time ≡ o.next_retry

  stamp_if_lem :
      (b : Bool) (s : State)
      → (t : Option String) × (n : ℕ) × (stamp_if b s ≡ (ok t, record s { readings = n }))
        × IsStamped b t
  unfolding stamp_if now_rfc3339 now_utc ◌>>=◌ pure
  stamp_if_lem true s = (some (w.strftime (w.clock s.readings)), suc s.readings, refl, (_, refl))
  stamp_if_lem false s = (none, s.readings, refl, refl)

  build_patch_lem :
      (p : Publication) (phase message : String) (o : Options) (s : State)
      → (patch : StatusPatch) × (n : ℕ) × (build_patch p phase
            (reason_or_default o.reason phase)
            (truncate max_message message)
            o
            s
          ≡ (ok patch, record s { readings = n }))
        × IsPatch p phase message o patch
  unfolding build_patch ◌>>=◌ pure now_rfc3339 now_utc
  build_patch_lem p phase message o s =
      let reason = reason_or_default o.reason phase in
      let text = truncate max_message message in
      let (c, n, e, g) = ready_condition_lem p phase reason text o.ready s in
      let (t, m, f, i) = stamp_if_lem o.mark_published (record s { readings = suc n }) in
      let (u, k, h, j) = stamp_if_lem o.mark_signing (record s { readings = m }) in
      (
        record {
          phase = phase;
          message = text;
          reason = reason;
          last_reconcile_time = w.strftime (w.clock n);
          observed_generation = p.generation;
          conditions = merge_conditions p c;
          published_fingerprint = o.published_fingerprint;
          last_published_time = t;
          pending_request_name = o.pending_request;
          last_signing_time = u;
          next_retry_time = o.next_retry;
        },
        k,
        simp e (simp f (simp h)),
        record {
          phase_eq = refl;
          message_eq = refl;
          reason_eq = refl;
          generation_eq = refl;
          conditions_eq = (c, g, refl);
          fingerprint_eq = refl;
          published_at = i;
          pending_eq = refl;
          signing_at = j;
          retry_eq = refl;
        },
      )

  abbrev pub event_of : StatusPatch → KubeEvent
  event_of patch = record {
    type = if not (patch.phase == error) then "Normal" else "Warning";
    reason = patch.reason;
    message = truncate 1024 patch.message;
  }

  abbrev pub sent : State → StatusPatch → Bool → Event
  sent s patch b = record {
    call = patches_status s.publication.namespace s.publication.name patch;
    succeeded = b;
  }

  -- The write failed, and nothing else happened.
  abbrev pub IsDropped : State → StatusPatch → State → Type 0
  IsDropped s patch t =
      (t.publication ≡ s.publication) × (t.history ≡ sent s patch false ∷ s.history)

  -- The write was stored, the copy in memory followed it, and an Event was tried if and only if the
  -- phase or the reason is another than before.
  abbrev pub IsStored : State → StatusPatch → State → Type 0
  IsStored s patch t =
      (t.publication ≡ record s.publication { status = merge patch s.publication.status })
      × (((same_outcome s.publication.status patch.phase patch.reason ≡ true)
            × (t.history ≡ sent s patch true ∷ s.history))
          ⊎ ((b : Bool) × (same_outcome s.publication.status patch.phase patch.reason ≡ false)
              × (t.history
                  ≡ record {
                    call = posts_event s.publication.namespace (event_of patch);
                    succeeded = b;
                  }
                    ∷ sent s patch true
                    ∷ s.history)))

  record_event_lem :
      (p : Publication) (type reason message : String) (s : State)
      → (b : Bool) × (n : ℕ) × (record_event p type reason message s ≡ (
        ok tt,
        record s {
          history =
              record {
                call =
                    posts_event p.namespace
                      (record { type = type; reason = reason; message = truncate 1024 message });
                succeeded = b;
              }
              ∷ s.history;
          readings = n;
        },
      ))
  unfolding record_event ◌>>=◌ now_rfc3339 now_utc pure try_except perform
  record_event_lem p type reason message s = split _ refl
    where
      split :
          (x : Result (Unit {0}))
          → w.post_event s.history p.namespace
              (record { type = type; reason = reason; message = truncate 1024 message })
            ≡ x
          → (b : Bool) × (n : ℕ) × (record_event p type reason message s ≡ (
            ok tt,
            record s {
              history =
                  record {
                    call =
                        posts_event p.namespace (record {
                          type = type;
                          reason = reason;
                          message = truncate 1024 message;
                        });
                    succeeded = b;
                  }
                  ∷ s.history;
              readings = n;
            },
          ))
      split (ok a) e = (true, suc s.readings, simp e)
      split (raised x) e = (false, suc s.readings, simp e)

  after_patch_lem :
      (patch : StatusPatch) (k : ℕ) (s : State)
      → (u : State) × (after_patch s.publication.status patch
            (record s { history = sent s patch true ∷ s.history; readings = k })
          ≡ (ok tt, u))
        × IsStored s patch u
  unfolding after_patch ◌>>=◌ set_memory get_publication pure
  after_patch_lem patch k s =
      elim (Bool-cases (same_outcome s.publication.status patch.phase patch.reason)) [
        | inl same ↦ (
          record s {
            publication = record s.publication { status = merge patch s.publication.status };
            history = sent s patch true ∷ s.history;
            readings = k;
          },
          simp same,
          (refl, inl (same, refl)),
        )
        | inr other ↦
            let q : Publication = record s.publication {
              status = merge patch s.publication.status;
            } in
            let (b, n, f) =
              record_event_lem q (if not (patch.phase == error) then "Normal" else "Warning")
                patch.reason patch.message
                (record s {
                  publication = q;
                  history = sent s patch true ∷ s.history;
                  readings = k;
                }) in
            (
              record s {
                publication = q;
                history =
                    record { call = posts_event q.namespace (event_of patch); succeeded = b }
                    ∷ sent s patch true
                    ∷ s.history;
                readings = n;
              },
              simp other (simp f),
              (refl, inr (b, other, refl)),
            )
      ]

  abbrev pub Reported : State → Options → StatusPatch → Result (Unit {0}) × State → Type 0
  Reported s o patch =
      Post (λ _ t. IsStored s patch t ⊎ ((o.strict ≡ false) × IsDropped s patch t))
        (λ _ t. (o.strict ≡ true) × IsDropped s patch t)

  -- The part of `set_status` behind the building of the patch.
  abbrev send : Options → StatusPatch → Publication → Action (Unit {0})
  send o patch p = do
    stored ← try_patch o.strict p.namespace p.name patch
    if stored then after_patch p.status patch else pure tt

  send_lem :
      (o : Options) (patch : StatusPatch) (n : ℕ) (s : State)
      → Reported s o patch (send o patch s.publication (record s { readings = n }))
  unfolding try_patch ◌>>=◌ patch_publication_status perform try_except pure raise
  send_lem o patch n s = split _ refl
    where
      split :
          (x : Result (Unit {0}))
          → w.patch_status s.history s.publication.namespace s.publication.name patch ≡ x
          → Reported s o patch (send o patch s.publication (record s { readings = n }))
      split (ok a) e = let (u, f, g) = after_patch_lem patch n s in simp e (simp f (inl g))
      split (raised x) e = elim (Bool-cases o.strict) [
        | inl strict ↦ simp (e, strict) (refl, (refl, refl))
        | inr lax ↦ simp (e, lax) (inr (refl, (refl, refl)))
      ]

  -- On every path `set_status` sends one patch, which carries what the caller asked for. If the
  -- server takes it, the copy of the publication in memory is merged with the same patch, and an
  -- Event is tried exactly when the phase or the reason changed. If it does not, nothing else has
  -- happened; the exception reaches the caller if and only if the call is strict.
  pub set_status_lem :
      (phase message : String) (o : Options) (s : State)
      → (patch : StatusPatch) × IsPatch s.publication phase message o patch
        × Reported s o patch (set_status phase message o s)
  unfolding set_status ◌>>=◌ get_publication
  set_status_lem phase message o s =
      let (patch, n, e, i) = build_patch_lem s.publication phase message o s in
      (patch, i, simp e (send_lem o patch n s))

  -- To use `set_status_lem`: what has to hold in each of its cases.
  pub Reported-Post :
      (Q : Unit {0} → State → Type 0) (R : Exception → State → Type 0) (s : State) (o : Options)
      (patch : StatusPatch) (r : Result (Unit {0}) × State)
      → Reported s o patch r
      → ((a : Unit {0}) (t : State) → IsStored s patch t → Q a t)
      → ((a : Unit {0}) (t : State) → o.strict ≡ false → IsDropped s patch t → Q a t)
      → ((e : Exception) (t : State) → o.strict ≡ true → IsDropped s patch t → R e t)
      → Post Q R r
  Reported-Post Q R s o patch (ok a, t) (inl k) f g h = f a t k
  Reported-Post Q R s o patch (ok a, t) (inr (l, d)) f g h = g a t l d
  Reported-Post Q R s o patch (raised e, t) (l, d) f g h = h e t l d
