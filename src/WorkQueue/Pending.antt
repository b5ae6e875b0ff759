-- ===== src/WorkQueue/Pending.antt =====
-- No work is lost: a key that is owed a reconcile stays owed it until it is handed out.
use cert_publisher.Prelude.{
  ℕ, ◌+◌, ◌≤◌, String, ◌≡◌, ◌⊎◌, inl, inr, Bool, true, false, ◌||◌, Option, none, some, List, [],
  ◌∷◌, ◌++◌, arith, eq_iff, ◌==◌, leb, Bool-cases, Option-cases, ◌∙◌,
}
use cert_publisher.Prelude.Keys.{
  contains, get, remove, contains-insert, contains-discard, get-remove, get-put, self_eq,
}
use cert_publisher.Prelude.Int.{ℤ, pos_part}
use cert_publisher.WorkQueue.{
  Entry, WorkQueue, add_locked, schedule, settle, promote_from, add, add_after, promote_due, Round,
  handed, gave_up, waits, get_round, take_key, done, shutdown, Call, adds, adds_after, finishes,
  shuts_down, apply,
}
use cert_publisher.WorkQueue.Invariant.{after}
use cert_publisher.WorkQueue.Promotion.{IsTimely, promote_due-deadline}

has_deadline : Option ℕ → Bool
has_deadline none = false
has_deadline (some d) = true

-- The key is queued, or will be when its reconcile ends or when its deadline comes.
unfoldable pub is_pending : String → WorkQueue → Bool
unfolding has_deadline
is_pending k q = contains k q.dirty || has_deadline (get k q.deadlines)

module _ (k : String) where
  add_locked-pending :
      (key : String) (q : WorkQueue)
      → is_pending k q ≡ true
      → is_pending k (add_locked key q) ≡ true
  unfolding is_pending add_locked
  add_locked-pending key q h =
      ground (arith, contains-insert key k q.dirty, get-remove key k q.deadlines, eq_iff key k)

  settle-pending :
      (w : Entry) (q : WorkQueue)
      → q.is_shutdown ≡ false
      → is_pending k q ≡ true
      → is_pending k (settle w q) ≡ true
  unfolding is_pending settle add_locked
  settle-pending w q o h = ground (
    arith,
    contains-insert w.key k q.dirty,
    get-remove w.key k q.deadlines,
    get-remove w.key k (remove w.key q.deadlines),
    eq_iff w.key k,
  )

pub settle-is_shutdown : (w : Entry) (q : WorkQueue) → (settle w q).is_shutdown ≡ q.is_shutdown
unfolding settle add_locked
settle-is_shutdown w q = ground arith

promote_from-pending :
    (k : String) (now : ℕ) (ws : List Entry) (q : WorkQueue)
    → q.is_shutdown ≡ false
    → is_pending k q ≡ true
    → is_pending k (promote_from now ws q) ≡ true
unfolding promote_from
promote_from-pending k now [] q o h = unfold is_pending in h
promote_from-pending k now (w ∷ ws) q o h = elim (Bool-cases (leb w.due now)) [
  | inl e ↦ simp e (
      promote_from-pending k now ws (settle w q) (settle-is_shutdown w q ∙ o)
        (settle-pending k w q o h))
  | inr e ↦ simp e (unfold is_pending in h)
]

promote_due-pending :
    (k : String) (now : ℕ) (q : WorkQueue)
    → q.is_shutdown ≡ false
    → is_pending k q ≡ true
    → is_pending k (promote_due now q) ≡ true
unfolding promote_due
promote_due-pending k now q = promote_from-pending k now q.waiting q

-- A promotion drops deadlines and never moves one.
settle-deadline :
    (k : String) (d : ℕ) (w : Entry) (q : WorkQueue)
    → get k (settle w q).deadlines ≡ some d
    → get k q.deadlines ≡ some d
unfolding settle add_locked
settle-deadline k d w q h =
    ground (arith, get-remove w.key k q.deadlines, get-remove w.key k (remove w.key q.deadlines))

promote_from-deadline :
    (k : String) (d now : ℕ) (ws : List Entry) (q : WorkQueue)
    → get k (promote_from now ws q).deadlines ≡ some d
    → get k q.deadlines ≡ some d
unfolding promote_from
promote_from-deadline k d now [] q h = h
promote_from-deadline k d now (w ∷ ws) q h = elim (Bool-cases (leb w.due now)) [
  | inl e ↦ settle-deadline k d w q (promote_from-deadline k d now ws (settle w q) (simp e at h))
  | inr e ↦ simp e at h
]

pub promote_due-keeps :
    (k : String) (d now : ℕ) (q : WorkQueue)
    → get k (promote_due now q).deadlines ≡ some d
    → get k q.deadlines ≡ some d
unfolding promote_due
promote_due-keeps k d now q = promote_from-deadline k d now q.waiting q

-- On a queue that is not shut down and whose heap has an entry for every deadline, in order, a key
-- whose deadline has come is dirty after the promotion: queued, or in flight and marked.
pub promote_due-dirty :
    (k : String) (d now : ℕ) (q : WorkQueue)
    → IsTimely q
    → q.is_shutdown ≡ false
    → get k q.deadlines ≡ some d
    → d ≤ now
    → contains k (promote_due now q).dirty ≡ true
unfolding is_pending
promote_due-dirty k d now q v o h l = elim (Option-cases (get k (promote_due now q).deadlines)) [
  | inl e ↦ ground (arith, promote_due-pending k now q o)
  | inr (d', e) ↦
      absurd (ground (arith, promote_due-deadline now q k d' v e, promote_due-keeps k d' now q e))
]

-- The round of `get` handed out this key.
abbrev pub Hands : String → Round → Type 0
Hands k (handed key q) = key ≡ k
Hands k (gave_up q) = ⊥
Hands k (waits t q) = ⊥

take_key-pending :
    (k : String) (deadline now : ℕ) (q : WorkQueue) (keys : List String)
    → is_pending k q ≡ true
    → Hands k (take_key deadline now q keys)
      ⊎ (is_pending k (after (take_key deadline now q keys)) ≡ true)
unfolding take_key is_pending
take_key-pending k deadline now q [] h = inr (ground arith)
take_key-pending k deadline now q (key ∷ rest) h = elim (Bool-cases (key == k)) [
  | inl e ↦ inl ((eq_iff key k).0 e)
  | inr e ↦ inr (ground (arith, contains-discard key k q.dirty))
]

-- A pending key is handed out by a round of `get`, or is pending after it.
pub get_round-pending :
    (k : String) (deadline promote_at now : ℕ) (q : WorkQueue)
    → is_pending k q ≡ true
    → Hands k (get_round deadline promote_at now q)
      ⊎ (is_pending k (after (get_round deadline promote_at now q)) ≡ true)
unfolding get_round
get_round-pending k deadline promote_at now q h = elim (Bool-cases q.is_shutdown) [
  | inl e ↦ inr (simp e h)
  | inr e ↦ simp e (take_key-pending k deadline now _ _ (promote_due-pending k promote_at q e h))
]

schedule-pending :
    (k key : String) (due : ℕ) (q : WorkQueue)
    → is_pending k q ≡ true
    → is_pending k (schedule key due q) ≡ true
unfolding is_pending schedule
schedule-pending k key due q h = ground (arith, get-put key k due q.deadlines, eq_iff key k)

-- No method call of another thread makes a pending key not pending: neither the end of its own
-- reconcile, nor a shutdown, nor an add or a delayed add of any key.
pub apply-pending :
    (k : String) (c : Call) (q : WorkQueue)
    → is_pending k q ≡ true
    → is_pending k (apply c q) ≡ true
unfolding apply add
apply-pending k (adds key) q h = add_locked-pending k key q h
apply-pending k (adds_after key delay now) q h =
    unfold add_after in
    ground (arith, add_locked-pending k key q h, schedule-pending k key (now + pos_part delay) q h)
apply-pending k (finishes key) q h = unfold done is_pending in ground arith
apply-pending k shuts_down q h = unfold shutdown is_pending in h

-- On a queue that is not shut down an add, at once or after any delay, makes its key pending.
pub add_after-pending :
    (k : String) (delay : ℤ) (now : ℕ) (q : WorkQueue)
    → q.is_shutdown ≡ false
    → is_pending k (add_after k delay now q) ≡ true
unfolding add_after add_locked schedule is_pending
add_after-pending k delay now q o =
    ground (
      arith,
      contains-insert k k q.dirty,
      get-put k k (now + pos_part delay) q.deadlines,
      self_eq k,
    )

-- On a queue that is not shut down, a key that is added while it is in flight is not queued then,
-- and is queued when its reconcile ends.
pub done-add :
    (k : String) (q : WorkQueue)
    → q.is_shutdown ≡ false
    → contains k q.processing ≡ true
    → ((add k q).queue ≡ q.queue) × ((done k (add k q)).queue ≡ q.queue ++ k ∷ [])
unfolding add add_locked done
done-add k q o p = (ground arith, ground (arith, contains-insert k k q.dirty, self_eq k))
