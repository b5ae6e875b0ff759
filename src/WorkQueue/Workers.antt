-- ===== src/WorkQueue/Workers.antt =====
-- The queue with its workers, as interleavings of their calls: what the lock of the queue leaves of
-- the threads. A worker holds the key that `get` gave it until it calls `done`.
use cert_publisher.Prelude.{
  ℕ, String, ◌≡◌, ◌≢◌, refl, inl, inr, true, false, Option, none, some, List, [], ◌∷◌, arith,
  nat_eq, eq_iff, if◌then◌else◌, Bool-cases, ap, ◌∙◌, subst,
}
use cert_publisher.Prelude.Keys.{
  contains, insert, discard, contains-insert, contains-discard, self_eq,
}
use cert_publisher.Prelude.Int.{ℤ}
use cert_publisher.WorkQueue.{
  Entry, WorkQueue, init, handed, gave_up, settle, promote_from, promote_due, add_locked, add_after,
  schedule, get_round, take_key, shutdown, add, done,
}
use cert_publisher.WorkQueue.Invariant.{
  after, IsSerial, init-IsSerial, get_round-IsSerial, promote_due-IsSerial, add-IsSerial,
  add_after-IsSerial, shutdown-IsSerial, done-IsSerial,
}

pub record System : Type 0 where
  pub queue : WorkQueue
  -- By the worker's number.
  pub holds : ℕ → Option String

abbrev pub start : System
start = record { queue = init; holds = λ w. none }

unfoldable pub update : ℕ → Option String → (ℕ → Option String) → ℕ → Option String
update w v f u = if nat_eq w u then v else f u

pub data Step (s : System) : System → Type 0 where
  -- A watcher, a worker or the shutdown calls the queue.
  adds : (key : String) → Step s (record s { queue = add key s.queue })
  adds_after :
      (key : String) (delay : ℤ) (now : ℕ)
      → Step s (record s { queue = add_after key delay now s.queue })
  shuts_down : Step s (record s { queue = shutdown s.queue })
  -- A round of `get` by a worker that holds nothing hands it a key.
  takes :
      (w : ℕ) (deadline promote_at now : ℕ) (key : String) (q : WorkQueue)
      → s.holds w ≡ none
      → get_round deadline promote_at now s.queue ≡ handed key q
      → Step s (record { queue = q; holds = update w (some key) s.holds })
  -- A round of `get` that hands out nothing.
  idles :
      (deadline promote_at now : ℕ)
      → ((key : String) (q : WorkQueue) → get_round deadline promote_at now s.queue ≢ handed key q)
      → Step s (record s { queue = after (get_round deadline promote_at now s.queue) })
  -- A worker is done with the key that it holds.
  finishes :
      (w : ℕ) (key : String)
      → s.holds w ≡ some key
      → Step s (record { queue = done key s.queue; holds = update w none s.holds })

pub data Reach (s : System) : System → Type 0 where
  here : Reach s s
  next : {t u : System} → Reach s t → Step t u → Reach s u

-- What is in flight is what some worker holds, and no two workers hold one key.
pub record IsExclusive (s : System) : Type 0 where
  pub serial : IsSerial s.queue
  pub in_flight :
      (w : ℕ) (key : String) → s.holds w ≡ some key → contains key s.queue.processing ≡ true
  pub exclusive : (w v : ℕ) (key : String) → s.holds w ≡ some key → s.holds v ≡ some key → w ≡ v

add_locked-processing :
    (key : String) (q : WorkQueue) → (add_locked key q).processing ≡ q.processing
unfolding add_locked
add_locked-processing key q = ground arith

add_after-processing :
    (key : String) (delay : ℤ) (now : ℕ) (q : WorkQueue)
    → (add_after key delay now q).processing ≡ q.processing
unfolding add_after schedule
add_after-processing key delay now q = ground (arith, add_locked-processing key q)

promote_from-processing :
    (now : ℕ) (ws : List Entry) (q : WorkQueue) → (promote_from now ws q).processing ≡ q.processing
unfolding promote_from settle
promote_from-processing now [] q = refl
promote_from-processing now (w ∷ ws) q =
    ground (arith, promote_from-processing now ws (settle w q), add_locked-processing w.key _)

promote_due-processing : (now : ℕ) (q : WorkQueue) → (promote_due now q).processing ≡ q.processing
unfolding promote_due
promote_due-processing now q = promote_from-processing now q.waiting q

take_key-handed :
    (deadline now : ℕ) (q q' : WorkQueue) (keys : List String) (key : String)
    → q.queue ≡ keys
    → take_key deadline now q keys ≡ handed key q'
    → (contains key q.queue ≡ true) × (q'.processing ≡ insert key q.processing)
unfolding take_key contains
take_key-handed deadline now q q' [] key e h = ground arith
take_key-handed deadline now q q' (k ∷ keys) key e h = (ground (arith, self_eq k), ground arith)

get_round-handed :
    (deadline promote_at now : ℕ) (q q' : WorkQueue) (key : String)
    → IsSerial q
    → get_round deadline promote_at now q ≡ handed key q'
    → (contains key q.processing ≡ false)
      × (q'.processing ≡ insert key q.processing)
      × (q.is_shutdown ≡ false)
unfolding get_round
get_round-handed deadline promote_at now q q' key v h = elim (Bool-cases q.is_shutdown) [
  | inl e ↦ absurd (unwanted (simp e at h))
  | inr e ↦
      let p : WorkQueue = promote_due promote_at q in
      let t = take_key-handed deadline now p q' p.queue key refl (simp e at h) in
      let same = promote_due-processing promote_at q in
      (
        ground (arith, (promote_due-IsSerial promote_at q v).queued_idle key t.0, same),
        t.1 ∙ ap (insert key) same,
        e,
      )
]
  where
    unwanted : gave_up q ≡ handed key q' → ⊥
    unwanted e = cc

-- On a queue that has the invariant, a key that `get` hands out was not in flight, and is in flight
-- after.
pub get_round-exclusive :
    (deadline promote_at now : ℕ) (q q' : WorkQueue) (key : String)
    → IsSerial q
    → get_round deadline promote_at now q ≡ handed key q'
    → (contains key q.processing ≡ false) × (contains key q'.processing ≡ true)
get_round-exclusive deadline promote_at now q q' key v h =
    let f = get_round-handed deadline promote_at now q q' key v h in
    (f.0, ground (arith, f.1, contains-insert key key q.processing, self_eq key))

same_processing :
    (s : System) (q : WorkQueue)
    → IsSerial q
    → q.processing ≡ s.queue.processing
    → IsExclusive s
    → IsExclusive (record s { queue = q })
same_processing s q v e i = record {
  serial = v;
  in_flight = λ w key h. ap (contains key) e ∙ i.in_flight w key h;
  exclusive = i.exclusive;
}

take_key-unhanded :
    (deadline now : ℕ) (q : WorkQueue) (keys : List String)
    → ((key : String) (q' : WorkQueue) → take_key deadline now q keys ≢ handed key q')
    → (after (take_key deadline now q keys)).processing ≡ q.processing
unfolding take_key
take_key-unhanded deadline now q [] n = ground arith
take_key-unhanded deadline now q (k ∷ keys) n = absurd (n k _ refl)

get_round-unhanded :
    (deadline promote_at now : ℕ) (q : WorkQueue)
    → ((key : String) (q' : WorkQueue) → get_round deadline promote_at now q ≢ handed key q')
    → (after (get_round deadline promote_at now q)).processing ≡ q.processing
unfolding get_round
get_round-unhanded deadline promote_at now q n = elim (Bool-cases q.is_shutdown) [
  | inl e ↦ simp e
  | inr e ↦ simp e (
      take_key-unhanded deadline now _ _ (λ key q' h. n key q' (simp e h))
      ∙ promote_due-processing promote_at q)
]

done-processing :
    (key : String) (q : WorkQueue) → (done key q).processing ≡ discard key q.processing
unfolding done
done-processing key q = ground arith

module _ (s : System) (i : IsExclusive s) where
  takes-IsExclusive :
      (w deadline promote_at now : ℕ) (key : String) (q : WorkQueue)
      → get_round deadline promote_at now s.queue ≡ handed key q
      → IsExclusive (record { queue = q; holds = update w (some key) s.holds })
  unfolding update
  takes-IsExclusive w deadline promote_at now key q h =
      let f = get_round-handed deadline promote_at now s.queue q key i.serial h in
      record {
        serial =
            subst (λ r. IsSerial (after r)) h
              (get_round-IsSerial deadline promote_at now s.queue i.serial);
        in_flight = λ u k e.
            ground
              (arith, f.1, contains-insert key k s.queue.processing, eq_iff key k, i.in_flight u k);
        exclusive =
            λ u v k e d. ground (arith, f.0, i.in_flight u k, i.in_flight v k, i.exclusive u v k);
      }

  finishes-IsExclusive :
      (w : ℕ) (key : String)
      → s.holds w ≡ some key
      → IsExclusive (record { queue = done key s.queue; holds = update w none s.holds })
  unfolding update
  finishes-IsExclusive w key h = record {
    serial = done-IsSerial key s.queue (i.in_flight w key h) i.serial;
    in_flight = λ u k e. ground (
      arith,
      done-processing key s.queue,
      contains-discard key k s.queue.processing,
      eq_iff key k,
      i.in_flight u k,
      i.exclusive w u k,
    );
    exclusive = λ u v k e d. ground (arith, i.exclusive u v k);
  }

Step-IsExclusive : {s t : System} → Step s t → IsExclusive s → IsExclusive t
Step-IsExclusive {s} (adds key) i =
    same_processing s _ (add-IsSerial key s.queue i.serial)
      (unfold add in add_locked-processing key s.queue) i
Step-IsExclusive {s} (adds_after key delay now) i =
    same_processing s _ (add_after-IsSerial key delay now s.queue i.serial)
      (add_after-processing key delay now s.queue) i
Step-IsExclusive {s} shuts_down i =
    same_processing s _ (shutdown-IsSerial s.queue i.serial) (unfold shutdown in refl) i
Step-IsExclusive {s} (takes w deadline promote_at now key q free h) i =
    takes-IsExclusive s i w deadline promote_at now key q h
Step-IsExclusive {s} (idles deadline promote_at now n) i =
    same_processing s _ (get_round-IsSerial deadline promote_at now s.queue i.serial)
      (get_round-unhanded deadline promote_at now s.queue n) i
Step-IsExclusive {s} (finishes w key h) i = finishes-IsExclusive s i w key h

start-IsExclusive : IsExclusive start
start-IsExclusive = record {
  serial = init-IsSerial;
  in_flight = λ w key e. cc;
  exclusive = λ w v key e d. cc;
}

Reach-IsExclusive : {s t : System} → IsExclusive s → Reach s t → IsExclusive t
Reach-IsExclusive i here = i
Reach-IsExclusive i (next r st) = Step-IsExclusive st (Reach-IsExclusive i r)

-- In every state that the calls of any number of workers and producers reach, in any order, two
-- workers that hold the same key are the same worker.
pub never_concurrent :
    (t : System) (w v : ℕ) (key : String)
    → Reach start t
    → t.holds w ≡ some key
    → t.holds v ≡ some key
    → w ≡ v
never_concurrent t w v key r = (Reach-IsExclusive start-IsExclusive r).exclusive w v key
