-- ===== src/WorkQueue/Spec/Expiry.antt =====
-- The promotion acts on every deadline that has come, as the specification says.
use mathlib.Core.List.{append_assoc, append-nil}
use cert_publisher.Prelude.{
  ℕ, ◌≤◌, ◌<◌, String, ◌≡◌, refl, inl, inr, Bool, true, false, Option, none, some, List, [], ◌∷◌,
  ◌++◌, arith, eq_iff, ◌==◌, leb, Bool-cases, ◌∙◌, ap, if◌then◌else◌, sym, ◌&&◌, leb→lt,
}
use cert_publisher.Prelude.Keys.{contains, get, remove, contains-insert, get-remove}
use cert_publisher.WorkQueue.{
  Entry, WorkQueue, add_locked, settle, promote_from, promote_due, is_deadline,
}
use cert_publisher.WorkQueue.Spec.{Phase, Spec, view, phase_of, Expires, requested, is_due}
use cert_publisher.WorkQueue.Promotion.{
  IsTimely, IsScheduled, settle-entered, has_entry-beyond, IsBeyond-sorted, has_entry,
}
use cert_publisher.WorkQueue.Pending.{settle-is_shutdown}

-- Whether the entry is the key's deadline, and whether its key is then queued.
hits : Entry → String → WorkQueue → Bool
hits w k q = w.key == k && is_deadline (get k q.deadlines) w.due

settled : Entry → WorkQueue → List String
settled w q =
    if contains w.key q.dirty
    then []
    else if contains w.key q.processing
    then []
    else if is_deadline (get w.key q.deadlines) w.due
    then w.key ∷ []
    else []

settle-line :
    (w : Entry) (q : WorkQueue)
    → q.is_shutdown ≡ false
    → (settle w q).queue ≡ q.queue ++ settled w q
unfolding settle add_locked settled
settle-line w q o = ground (arith, append-nil q.queue)

settle-phase :
    (w : Entry) (q : WorkQueue) (k : String)
    → q.is_shutdown ≡ false
    → (view (settle w q)).phase k
      ≡ (if hits w k q then requested ((view q).phase k) else (view q).phase k)
unfolding settle add_locked hits phase_of requested is_deadline
settle-phase w q k o = ground (arith, contains-insert w.key k q.dirty, eq_iff w.key k)

settle-deadline :
    (w : Entry) (q : WorkQueue) (k : String)
    → q.is_shutdown ≡ false
    → get k (settle w q).deadlines ≡ (if hits w k q then none else get k q.deadlines)
unfolding settle add_locked hits is_deadline
settle-deadline w q k o = ground (
  arith,
  get-remove w.key k q.deadlines,
  get-remove w.key k (remove w.key q.deadlines),
  eq_iff w.key k,
)

requested-requested : (p : Phase) → requested (requested p) ≡ requested p
unfolding requested
requested-requested p = ground arith

then-Expires :
    (now : ℕ) (w : Entry) (q : WorkQueue) (t : Spec)
    → q.is_shutdown ≡ false
    → w.due ≤ now
    → Expires now (view (settle w q)) t
    → Expires now (view q) t
unfolding hits is_deadline is_due
then-Expires now w q t o l e = record {
  news = settled w q ++ e.news;
  line =
      e.line
      ∙ ap (λ x. x ++ e.news) (settle-line w q o)
      ∙ append_assoc q.queue (settled w q) e.news;
  phase = λ k. ground (arith, e.phase k, settle-phase w q k o, settle-deadline w q k o);
  deadline = λ k. ground (arith, e.deadline k, settle-deadline w q k o);
  closed = e.closed ∙ settle-is_shutdown w q;
}

beyond : (now : ℕ) (o : Option ℕ) → ((d : ℕ) → o ≡ some d → now < d) → is_due o now ≡ false
unfolding is_due
beyond now none h = refl
beyond now (some d) h = ground (arith, h d refl)

unentered : (k : String) (d : ℕ) (now : ℕ) → has_entry k d [] ≡ true → now < d
unfolding has_entry
unentered k d now h = cc

none-Expires :
    (now : ℕ) (q r : WorkQueue)
    → ((k : String) → is_due (get k q.deadlines) now ≡ false)
    → r.queue ≡ q.queue
    → r.dirty ≡ q.dirty
    → r.processing ≡ q.processing
    → r.deadlines ≡ q.deadlines
    → r.is_shutdown ≡ q.is_shutdown
    → Expires now (view q) (view r)
none-Expires now q r n a b c d e = record {
  news = [];
  line = a ∙ sym (append-nil q.queue);
  phase = λ k. ground (arith, n k);
  deadline = λ k. ground (arith, n k);
  closed = e;
}

promote_from-Expires :
    (now : ℕ) (ws : List Entry) (q : WorkQueue)
    → q.is_shutdown ≡ false
    → IsScheduled q.deadlines ws
    → Expires now (view q) (view (promote_from now ws q))
unfolding promote_from
promote_from-Expires now [] q o v =
    none-Expires now q (record q { waiting = [] })
      (λ k. beyond now _ (λ d h. unentered k d now (v.entered k d h))) refl refl refl refl refl
promote_from-Expires now (w ∷ ws) q o v = elim (Bool-cases (leb w.due now)) [
  | inl e ↦ simp e (
      then-Expires now w q _ o (ground arith) (
        promote_from-Expires now ws (settle w q) (settle-is_shutdown w q ∙ o)
          (settle-entered w ws q v)))
  | inr e ↦ simp e (
      none-Expires now q (record q { waiting = w ∷ ws })
        (λ k. beyond now _ (λ d h.
          has_entry-beyond now k d _ (IsBeyond-sorted now w ws (leb→lt w.due now e) v.sorted)
            (v.entered k d h)))
        refl refl refl refl refl)
]

-- On a queue that is not shut down, with its schedule in order, `_promote_due_locked` requests every key whose deadline has come
-- and drops its deadline, leaves every other key's phase and deadline alone, and leaves the keys
-- that are queued already in their places.
pub promote_due-Expires :
    (now : ℕ) (q : WorkQueue)
    → q.is_shutdown ≡ false
    → IsTimely q
    → Expires now (view q) (view (promote_due now q))
unfolding promote_due
promote_due-Expires now q o v = promote_from-Expires now q.waiting q o v
