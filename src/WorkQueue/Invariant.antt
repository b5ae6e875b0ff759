-- ===== src/WorkQueue/Invariant.antt =====
-- The invariant of the queue and its preservation by every method.
use cert_publisher.Prelude.{
  ℕ, String, ◌≡◌, refl, inl, inr, true, false, ◌||◌, List, [], ◌∷◌, ◌++◌, arith, eq_iff, ◌==◌, leb,
  Bool-cases,
}
use cert_publisher.Prelude.Keys.{
  Dict, contains, insert, discard, remove, contains-insert, contains-discard,
}
use cert_publisher.Prelude.Int.{ℤ}
use cert_publisher.WorkQueue.{
  Entry, WorkQueue, init, settle, promote_from, take_key, add_locked, add, add_after, promote_due,
  Round, handed, gave_up, waits, get_round, done, shutdown, Call, adds, adds_after, finishes,
  shuts_down, apply,
}

abbrev pub IsDistinct : List String → Type 0
IsDistinct [] = Unit
IsDistinct (k ∷ ks) = (contains k ks ≡ false) × IsDistinct ks

-- The part of the invariant that concerns the keys which are queued or in flight.
pub record IsSerial (q : WorkQueue) : Type 0 where
  pub queued_dirty : (k : String) → contains k q.queue ≡ true → contains k q.dirty ≡ true
  pub queued_idle : (k : String) → contains k q.queue ≡ true → contains k q.processing ≡ false
  pub dirty_queued :
      (k : String)
      → contains k q.dirty ≡ true
      → contains k q.processing ≡ false
      → contains k q.queue ≡ true
  pub distinct : IsDistinct q.queue

pub contains-append :
    (j k : String) (xs : List String) → contains j (xs ++ k ∷ []) ≡ (contains j xs || k == j)
unfolding contains
contains-append j k [] = ground arith
contains-append j k (x ∷ xs) = ground (arith, contains-append j k xs)

IsDistinct-append :
    (k : String) (xs : List String)
    → contains k xs ≡ false
    → IsDistinct xs
    → IsDistinct (xs ++ k ∷ [])
unfolding contains
IsDistinct-append k [] n d = (refl, tt)
IsDistinct-append k (x ∷ xs) n d = (
  ground (arith, contains-append x k xs, eq_iff x k, eq_iff k x),
  IsDistinct-append k xs (ground arith) d.1,
)

pub init-IsSerial : IsSerial init
unfolding contains
init-IsSerial = record {
  queued_dirty = λ k h. cc;
  queued_idle = λ k h. cc;
  dirty_queued = λ k h _. cc;
  distinct = tt;
}

pub add_locked-IsSerial : (key : String) (q : WorkQueue) → IsSerial q → IsSerial (add_locked key q)
unfolding add_locked
add_locked-IsSerial key q v = record {
  queued_dirty = λ k h. ground (
    arith,
    v.queued_dirty k,
    contains-append k key q.queue,
    contains-insert key k q.dirty,
    eq_iff key k,
  );
  queued_idle = λ k h. ground (
    arith,
    v.queued_idle k,
    contains-append k key q.queue,
    contains-insert key k q.dirty,
    eq_iff key k,
  );
  dirty_queued = λ k h i. ground (
    arith,
    v.dirty_queued k,
    contains-append k key q.queue,
    contains-insert key k q.dirty,
    eq_iff key k,
  );
  distinct = ground (arith, v.distinct, v.queued_dirty key, IsDistinct-append key q.queue);
}

pub add-IsSerial : (key : String) (q : WorkQueue) → IsSerial q → IsSerial (add key q)
unfolding add
add-IsSerial key q v = add_locked-IsSerial key q v

-- What the methods do to the schedule is of no account here.
reschedule-IsSerial :
    (q : WorkQueue) (ds : Dict ℕ) (ws : List Entry) (n : ℕ)
    → IsSerial q
    → IsSerial (record q { deadlines = ds; waiting = ws; next_sequence = n })
reschedule-IsSerial q ds ws n v = record {
  queued_dirty = v.queued_dirty;
  queued_idle = v.queued_idle;
  dirty_queued = v.dirty_queued;
  distinct = v.distinct;
}

pub add_after-IsSerial :
    (key : String) (delay : ℤ) (now : ℕ) (q : WorkQueue)
    → IsSerial q
    → IsSerial (add_after key delay now q)
unfolding add_after
add_after-IsSerial key delay now q v =
    ground (arith, add_locked-IsSerial key q v, reschedule-IsSerial q _ _ _ v)

settle-IsSerial : (w : Entry) (q : WorkQueue) → IsSerial q → IsSerial (settle w q)
unfolding settle
settle-IsSerial w q v = ground (
  arith,
  add_locked-IsSerial w.key _
      (reschedule-IsSerial q (remove w.key q.deadlines) q.waiting q.next_sequence v),
)

promote_from-IsSerial :
    (now : ℕ) (ws : List Entry) (q : WorkQueue) → IsSerial q → IsSerial (promote_from now ws q)
unfolding promote_from
promote_from-IsSerial now [] q v = reschedule-IsSerial q _ _ _ v
promote_from-IsSerial now (w ∷ ws) q v = elim (Bool-cases (leb w.due now)) [
  | inl e ↦ rw e (promote_from-IsSerial now ws (settle w q) (settle-IsSerial w q v))
  | inr e ↦ rw e (reschedule-IsSerial q _ _ _ v)
]

pub promote_due-IsSerial : (now : ℕ) (q : WorkQueue) → IsSerial q → IsSerial (promote_due now q)
unfolding promote_due
promote_due-IsSerial now q v = promote_from-IsSerial now q.waiting q v

pub shutdown-IsSerial : (q : WorkQueue) → IsSerial q → IsSerial (shutdown q)
unfolding shutdown
shutdown-IsSerial q v = record {
  queued_dirty = v.queued_dirty;
  queued_idle = v.queued_idle;
  dirty_queued = v.dirty_queued;
  distinct = v.distinct;
}

pub done-IsSerial :
    (key : String) (q : WorkQueue)
    → contains key q.processing ≡ true
    → IsSerial q
    → IsSerial (done key q)
unfolding done
done-IsSerial key q held v = record {
  queued_dirty =
      λ k h. ground (arith, v.queued_dirty k, contains-append k key q.queue, eq_iff key k);
  queued_idle = λ k h. ground (
    arith,
    v.queued_idle k,
    contains-append k key q.queue,
    contains-discard key k q.processing,
    eq_iff key k,
  );
  dirty_queued = λ k h i. ground (
    arith,
    v.dirty_queued k,
    contains-append k key q.queue,
    contains-discard key k q.processing,
    eq_iff key k,
  );
  distinct = ground (arith, v.distinct, v.queued_idle key, IsDistinct-append key q.queue);
}

taken-IsSerial :
    (key : String) (rest : List String) (q : WorkQueue)
    → q.queue ≡ key ∷ rest
    → IsSerial q
    → IsSerial (record q {
      queue = rest;
      dirty = discard key q.dirty;
      processing = insert key q.processing;
    })
unfolding contains
taken-IsSerial key rest q e v = record {
  queued_dirty = λ k h.
      ground (arith, v.queued_dirty k, v.distinct, contains-discard key k q.dirty, eq_iff key k);
  queued_idle = λ k h.
      ground (arith, v.queued_idle k, v.distinct, contains-insert key k q.processing, eq_iff key k);
  dirty_queued = λ k h i. ground (
    arith,
    v.dirty_queued k,
    contains-discard key k q.dirty,
    contains-insert key k q.processing,
    eq_iff key k,
  );
  distinct = ground (arith, v.distinct);
}

-- The queue that a round of `get` leaves behind.
abbrev pub after : Round → WorkQueue
after (handed key q) = q
after (gave_up q) = q
after (waits t q) = q

take_key-IsSerial :
    (deadline now : ℕ) (q : WorkQueue) (keys : List String)
    → q.queue ≡ keys
    → IsSerial q
    → IsSerial (after (take_key deadline now q keys))
unfolding take_key
take_key-IsSerial deadline now q [] e v = ground (arith, v)
take_key-IsSerial deadline now q (key ∷ rest) e v = taken-IsSerial key rest q e v

pub get_round-IsSerial :
    (deadline promote_at now : ℕ) (q : WorkQueue)
    → IsSerial q
    → IsSerial (after (get_round deadline promote_at now q))
unfolding get_round
get_round-IsSerial deadline promote_at now q v = elim (Bool-cases q.is_shutdown) [
  | inl e ↦ simp e v
  | inr e ↦ simp e (take_key-IsSerial deadline now _ _ refl (promote_due-IsSerial promote_at q v))
]

-- `done` is called with a key that is in flight.
abbrev pub Respects : WorkQueue → Call → Type 0
Respects q (finishes key) = contains key q.processing ≡ true
Respects q _ = Unit

-- Every method call of another thread, `done` on a key in flight included, keeps the invariant:
-- what is queued is dirty, not in flight and queued once, and a dirty key that is not in flight is
-- queued.
pub apply-IsSerial : (c : Call) (q : WorkQueue) → Respects q c → IsSerial q → IsSerial (apply c q)
unfolding apply
apply-IsSerial (adds key) q r v = add-IsSerial key q v
apply-IsSerial (adds_after key delay now) q r v = add_after-IsSerial key delay now q v
apply-IsSerial (finishes key) q r v = done-IsSerial key q r v
apply-IsSerial shuts_down q r v = shutdown-IsSerial q v
