-- ===== src/WorkQueue/Spec/Refines.antt =====
-- The methods of WorkQueue do what the specification says.
use cert_publisher.Prelude.{
  ℕ, ◌+◌, String, ◌≡◌, refl, inl, inr, true, false, some, List, [], ◌∷◌, arith, eq_iff, leb,
  Bool-cases, ◌∙◌, ap,
}
use cert_publisher.Prelude.Keys.{
  contains, insert, discard, get, contains-insert, contains-discard, get-remove, get-put,
}
use cert_publisher.Prelude.Int.{ℤ, pos_part}
use cert_publisher.WorkQueue.{
  WorkQueue, add_locked, schedule, add, add_after, promote_due, gave_up, get_round, take_key, done,
  shutdown, Call, adds, adds_after, finishes, shuts_down, apply, nearer,
}
use cert_publisher.WorkQueue.Spec.{
  Spec, view, running, phase_of, update, request, request_in, defer, finish, finish_in, perform,
  serve_from, Serves, refuses, serves, seen,
}
use cert_publisher.WorkQueue.Promotion.{nearest, IsTimely}
use cert_publisher.WorkQueue.Invariant.{Respects}
use cert_publisher.WorkQueue.Spec.Expiry.{promote_due-Expires}

spec_eq :
    (s t : Spec)
    → s.line ≡ t.line
    → ((k : String) → s.phase k ≡ t.phase k)
    → ((k : String) → s.deadline k ≡ t.deadline k)
    → s.closed ≡ t.closed
    → s ≡ t
spec_eq s t a b c d =
    λ i. record { line = a i; phase = λ k. b k i; deadline = λ k. c k i; closed = d i }

add_locked-refines : (key : String) (q : WorkQueue) → view (add_locked key q) ≡ request key (view q)
unfolding add_locked request request_in update phase_of
add_locked-refines key q =
    spec_eq _ _ (ground arith) (λ k. ground (arith, contains-insert key k q.dirty, eq_iff key k))
      (λ k. ground (arith, get-remove key k q.deadlines)) (ground arith)

schedule-refines :
    (key : String) (due : ℕ) (q : WorkQueue)
    → q.is_shutdown ≡ false
    → nearer (get key q.deadlines) due ≡ false
    → view (schedule key due q) ≡ defer key due (view q)
unfolding schedule defer update nearer nearest
schedule-refines key due q o n =
    spec_eq _ _ (ground arith) (λ k. ground arith)
      (λ k. ground (arith, get-put key k due q.deadlines, eq_iff key k)) (ground arith)

kept-refines :
    (key : String) (due : ℕ) (q : WorkQueue)
    → nearer (get key q.deadlines) due ≡ true
    → view q ≡ defer key due (view q)
unfolding defer update nearer nearest
kept-refines key due q n =
    spec_eq _ _ (ground arith) (λ k. ground arith) (λ k. ground (arith, eq_iff key k))
      (ground arith)

add_after-refines :
    (key : String) (delay : ℤ) (now : ℕ) (q : WorkQueue)
    → view (add_after key delay now q) ≡ perform (adds_after key delay now) (view q)
unfolding add_after add perform
add_after-refines key delay now q = ground (
  arith,
  add_locked-refines key q,
  schedule-refines key (now + pos_part delay) q,
  kept-refines key (now + pos_part delay) q,
)

done-refines :
    (key : String) (q : WorkQueue)
    → contains key q.processing ≡ true
    → view (done key q) ≡ finish key (view q)
unfolding done finish finish_in update phase_of
done-refines key q h =
    spec_eq _ _ (ground arith)
      (λ k. ground (arith, contains-discard key k q.processing, eq_iff key k)) (λ k. ground arith)
      (ground arith)

-- Every call of another thread, `done` on a key in flight, does to what the callers see of the queue what the
-- specification says: phases, deadlines, the order of the line and the shutdown.
pub apply-refines :
    (c : Call) (q : WorkQueue) → Respects q c → view (apply c q) ≡ perform c (view q)
unfolding apply add perform
apply-refines (adds key) q r = add_locked-refines key q
apply-refines (adds_after key delay now) q r = unfold perform in add_after-refines key delay now q
apply-refines (finishes key) q r = done-refines key q r
apply-refines shuts_down q r = unfold shutdown in refl

take_key-refines :
    (deadline now : ℕ) (q : WorkQueue) (keys : List String)
    → seen (take_key deadline now q keys) ≡ serve_from keys (view q)
unfolding take_key serve_from update
take_key-refines deadline now q [] = elim (Bool-cases (leb deadline now)) [
  | inl e ↦ simp e
  | inr e ↦ simp e
]
take_key-refines deadline now q (key ∷ rest) =
    ap (λ s. (some key, s))
      (spec_eq (view taken)
        (record (view q) { line = rest; phase = update key running (view q).phase }) refl
        (λ k.
          (unfold update phase_of in
            ground (arith, contains-insert key k q.processing, contains-discard key k q.dirty)))
        (λ k. refl) refl)
  where
    taken : WorkQueue
    taken = record q {
      queue = rest;
      dirty = discard key q.dirty;
      processing = insert key q.processing;
    }

get_round-closed :
    (deadline promote_at now : ℕ) (q : WorkQueue)
    → q.is_shutdown ≡ true
    → get_round deadline promote_at now q ≡ gave_up q
unfolding get_round
get_round-closed deadline promote_at now q e = simp e

get_round-open :
    (deadline promote_at now : ℕ) (q : WorkQueue)
    → q.is_shutdown ≡ false
    → get_round deadline promote_at now q
      ≡ take_key deadline now (promote_due promote_at q) (promote_due promote_at q).queue
unfolding get_round
get_round-open deadline promote_at now q e = simp e

-- A round of `get` on a queue whose schedule is in order serves what the specification says: `None`
-- if the queue is shut down, otherwise the head of the line as it stands when the deadlines that have come are acted on, which is then in flight, or nothing if the line is empty.
pub get_round-Serves :
    (deadline promote_at now : ℕ) (q : WorkQueue)
    → IsTimely q
    → Serves promote_at (view q) (seen (get_round deadline promote_at now q))
get_round-Serves deadline promote_at now q v = elim (Bool-cases q.is_shutdown) [
  | inl e ↦ refuses e (ap seen (get_round-closed deadline promote_at now q e))
  | inr e ↦ serves (view (promote_due promote_at q)) e (promote_due-Expires promote_at q e v) (
      ap seen (get_round-open deadline promote_at now q e)
      ∙ take_key-refines deadline now (promote_due promote_at q) (promote_due promote_at q).queue)
]
