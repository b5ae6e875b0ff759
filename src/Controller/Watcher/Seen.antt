-- ===== src/Controller/Watcher/Seen.antt =====
-- Which events of publications are let through to the queue.
use cert_publisher.Prelude.{
  ℕ, ◌≡◌, ◌≢◌, ◌↔◌, ◌⊎◌, refl, sym, ◌∙◌, ap, inl, inr, String, Bool, true, false, not, ◌||◌, Option,
  none, some, List, [], ◌∷◌, arith, ◌==◌, nat_eq, if◌then◌else◌, Bool-cases,
}
use cert_publisher.Prelude.Keys.{Dict, get, get-put, get-remove}
use cert_publisher.Resources.{Publication, StatusPatch}
use cert_publisher.Effects.{Result, ok}
use cert_publisher.Status.{merge, kept_or}
use cert_publisher.Controller.Keys.{WatchedObject, is_missing, publication_key}
use cert_publisher.Controller.Watcher.{
  WatchedResource, WatchEvent, SeenState, seen_state, generations_differ, differs, is_deletion,
  spec_changed, filtered, handle_key, handle_object, handle,
}

-- An event of a publication that has a key.
pub record Sighting : Type 0 where
  pub type : Option String
  pub key : String
  pub object : WatchedObject

-- The state of the last event of the key, if there was one and the publication is still there. The
-- last event comes first.
unfoldable pub last_state : String → List Sighting → Option SeenState
unfolding is_deletion seen_state
last_state key [] = none
last_state key (s ∷ past) =
    let before = last_state key past in
    if s.key == key
    then (if is_deletion s.type then none else some (seen_state s.object))
    else before

-- The dict holds for every key the state of its last event.
pub record Tracks (past : List Sighting) (seen : Dict SeenState) : Type 0 where
  pub tracked : (key : String) → get key seen ≡ last_state key past

-- What makes an event more than a status write of ours: the publication is new, or has no
-- generation, or has another one, or the time of signing was there and is gone.
abbrev pub IsNews : Option SeenState → SeenState → Type 0
IsNews previous current =
    (previous ≡ none)
    ⊎ ((p : SeenState) × (previous ≡ some p)
        × ((current.0 ≡ none) ⊎ (p.0 ≢ current.0) ⊎ ((p.1 ≡ true) × (current.1 ≡ false))))

generations_differ-ne : (m n : Option ℕ) → (generations_differ m n ≡ true) ↔ (m ≢ n)
unfolding generations_differ
generations_differ-ne none none = (λ h e. cc, λ n. absurd (n refl))
generations_differ-ne none (some n) = (λ h e. cc, λ n. refl)
generations_differ-ne (some m) none = (λ h e. cc, λ n. refl)
generations_differ-ne (some m) (some n) = elim (Bool-cases (nat_eq m n)) [
  | inl e ↦ (λ h f. ground arith, λ f. absurd (f (ap some (ground arith))))
  | inr e ↦ (λ h f. ground arith, λ f. simp e)
]

some_lem : {A : Type 0} (a b : A) → ◌≡◌ {A = Option A} (some a) (some b) → a ≡ b
some_lem a b e = cc

differs-IsNews :
    (previous : Option SeenState) (current : SeenState)
    → differs previous current ≡ true
    → IsNews previous current
unfolding differs
differs-IsNews none current h = inl refl
differs-IsNews (some p) (none, signing) h = inr (p, refl, inl refl)
differs-IsNews (some p) (some g, signing) h = elim (Bool-cases (generations_differ (some g) p.0)) [
  | inl e ↦ inr (p, refl, inr (inl (λ f. (generations_differ-ne (some g) p.0).0 e (sym f))))
  | inr e ↦ inr (p, refl, inr (inr (ground arith, ground arith)))
]

IsNews-differs :
    (previous : Option SeenState) (current : SeenState)
    → IsNews previous current
    → differs previous current ≡ true
unfolding differs
IsNews-differs none current n = refl
IsNews-differs (some p) (none, signing) n = refl
IsNews-differs (some p) (some g, signing) (inl e) = cc
IsNews-differs (some p) (some g, signing) (inr (q, e, inl f)) = cc
IsNews-differs (some p) (some g, signing) (inr (q, e, inr (inl f))) = simp (
    (generations_differ-ne (some g) p.0).1
      (λ h. f (ap (λ (s : SeenState). s.0) (some_lem q p (sym e)) ∙ sym h)))
IsNews-differs (some p) (some g, signing) (inr (q, e, inr (inr (a, b)))) =
    let d = ap (λ (s : SeenState). s.1) (some_lem q p (sym e)) in ground arith

-- Why an event is let through.
abbrev pub Wakes : Option String → String → WatchedObject → List Sighting → Type 0
Wakes type key o past = (is_deletion type ≡ true) ⊎ IsNews (last_state key past) (seen_state o)

module _ (type : Option String) (key : String) (o : WatchedObject) (past : List Sighting)
    (seen : Dict SeenState) (tracks : Tracks past seen) where
  spec_changed_lem :
      (spec_changed type key o seen).0
      ≡ (is_deletion type || differs (last_state key past) (seen_state o))
  unfolding spec_changed
  spec_changed_lem = elim (Bool-cases (is_deletion type)) [
    | inl d ↦ simp d refl
    | inr d ↦ simp d (ap (λ s. differs s (seen_state o)) (tracks.tracked key))
  ]

  spec_changed-Wakes :
      (b : Bool) → (spec_changed type key o seen).0 ≡ b → (b ≡ true) ↔ Wakes type key o past
  spec_changed-Wakes b e = elim (Bool-cases (is_deletion type)) [
    | inl d ↦ (λ h. inl d, λ h. sym e ∙ spec_changed_lem ∙ simp d refl)
    | inr d ↦
        let f = sym e ∙ spec_changed_lem ∙ simp d refl in
        (λ h. inr (differs-IsNews _ _ (sym f ∙ h)), λ h. f ∙ IsNews-differs _ _ (news h d))
  ]
    where
      news :
          Wakes type key o past
          → is_deletion type ≡ false
          → IsNews (last_state key past) (seen_state o)
      news (inl d) n = absurd (clash (is_deletion type) d n)
        where
          clash : (b : Bool) → b ≡ true → b ≡ false → ⊥
          clash b f g = cc
      news (inr n) _ = n

  spec_changed-Tracks :
      Tracks (record { type = type; key = key; object = o } ∷ past) (spec_changed type key o seen).1
  unfolding spec_changed last_state
  spec_changed-Tracks = record {
    tracked = λ j.
        ground (arith, tracks.tracked j, get-remove key j seen, get-put key j (seen_state o) seen);
  }

filtered_lem :
    (key : String) (r : Bool × Dict SeenState)
    → ((filtered key r).0 ≡ some key ↔ (r.0 ≡ true)) × ((filtered key r).1 ≡ r.1)
unfolding filtered
filtered_lem key (true, seen) = ((λ h. refl, λ h. refl), refl)
filtered_lem key (false, seen) = ((λ h. cc, λ h. cc), refl)

handle_lem :
    (r : WatchedResource) (e : WatchEvent) (o : WatchedObject) (key : String)
    (seen : Dict SeenState)
    → r.is_publication ≡ true
    → e.object ≡ some o
    → publication_key o ≡ some key
    → handle r e seen ≡ (
      ok (filtered key (spec_changed e.type key o seen)).0,
      (filtered key (spec_changed e.type key o seen)).1,
    )
unfolding handle handle_object handle_key
handle_lem r e o key seen p q k = rw q (rw p (rw k refl))

key_or_none : (key : String) (r : Bool × Dict SeenState) → r.0 ≡ false → (filtered key r).0 ≡ none
unfolding filtered
key_or_none key (true, seen) h = cc
key_or_none key (false, seen) h = refl

ok_lem : {A : Type 0} (a b : A) → ◌≡◌ {A = Result A} (ok a) (ok b) → a ≡ b
ok_lem a b e = cc

-- The watcher of the publications wakes a publication exactly on the events that are more than a
-- status write of ours: a deletion, or one whose state is news against the last event of the same
-- publication; and it goes on knowing the last state of every publication.
pub handle-Wakes :
    (r : WatchedResource) (e : WatchEvent) (o : WatchedObject) (key : String) (past : List Sighting)
    (seen : Dict SeenState)
    → r.is_publication ≡ true
    → e.object ≡ some o
    → publication_key o ≡ some key
    → Tracks past seen
    → (((handle r e seen).0 ≡ ok (some key)) ↔ Wakes e.type key o past)
      × Tracks (record { type = e.type; key = key; object = o } ∷ past) (handle r e seen).1
handle-Wakes r e o key past seen p q k t =
    let c = spec_changed e.type key o seen in
    let h = handle_lem r e o key seen p q k in
    let (f, g) = filtered_lem key c in
    let w = spec_changed-Wakes e.type key o past seen t c.0 refl in
    (
      (
        λ x. w.0 (f.0 (ok_lem _ _ (sym (ap (λ y. y.0) h) ∙ x))),
        λ x. ap (λ y. y.0) h ∙ ap ok (f.1 (w.1 x)),
      ),
      rw h (rw g (spec_changed-Tracks e.type key o past seen t)),
    )

-- What a watch delivers of a publication.
unfoldable pub observed : Publication → WatchedObject
observed p = record {
  namespace = some p.namespace;
  name = some p.name;
  generation = p.generation;
  last_signing_time = p.status.last_signing_time;
  owners = [];
}

-- A stamp that a status write may leave out, but never writes empty.
abbrev IsStampOrNone : Option String → Type 0
IsStampOrNone none = Unit
IsStampOrNone (some t) = (t == "") ≡ false

stamp_kept :
    (stamp old : Option String)
    → IsStampOrNone stamp
    → not (is_missing old) ≡ true
    → not (is_missing (kept_or stamp old)) ≡ true
stamp_kept none old i h = h
stamp_kept (some t) old i h = simp i refl

-- A status write of the operator itself wakes nothing: if the last event of a publication showed its
-- state before the write, and it has a generation, then the event of the write, whatever was written
-- with a time of signing that is not empty, is ignored.
pub handle-merge :
    (r : WatchedResource) (type : Option String) (p : Publication) (patch : StatusPatch)
    (key : String) (past : List Sighting) (seen : Dict SeenState)
    → r.is_publication ≡ true
    → is_deletion type ≡ false
    → publication_key (observed p) ≡ some key
    → Tracks past seen
    → last_state key past ≡ some (seen_state (observed p))
    → p.generation ≢ none
    → IsStampOrNone patch.last_signing_time
    → (handle r
        (record {
          type = type;
          object = some (observed (record p { status = merge patch p.status }));
        })
        seen).0
      ≡ ok none
unfolding observed merge seen_state publication_key
handle-merge r type p patch key past seen q d k t l g i =
    let o : WatchedObject = observed (record p { status = merge patch p.status }) in
    let e : WatchEvent = record { type = type; object = some o } in
    let c = spec_changed type key o seen in
    ap (λ y. y.0) (handle_lem r e o key seen q refl k) ∙ ap ok (key_or_none key c (quiet c.0 refl))
  where
    after : WatchedObject
    after = observed (record p { status = merge patch p.status })

    quiet : (b : Bool) → (spec_changed type key after seen).0 ≡ b → b ≡ false
    quiet false e = refl
    quiet true e = absurd (silent ((spec_changed-Wakes type key after past seen t true e).0 refl))
      where
        silent : Wakes type key after past → ⊥
        silent (inl h) = cc
        silent (inr (inl h)) = cc
        silent (inr (inr (s, h, inl m))) = g m
        silent (inr (inr (s, h, inr (inl m)))) =
            m (ap (λ (x : SeenState). x.0) (some_lem s _ (sym h ∙ l)))
        silent (inr (inr (s, h, inr (inr (a, b))))) = ground (
          arith,
          stamp_kept patch.last_signing_time p.status.last_signing_time i
              (sym (ap (λ (x : SeenState). x.1) (some_lem s _ (sym h ∙ l))) ∙ a),
        )
