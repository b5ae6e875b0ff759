-- ===== src/WorkQueue.antt =====
-- src/cert_publisher/workqueue.py, class WorkQueue: each method under its lock is a function on
-- the queue's state. Readings of the monotonic clock are arguments, in one unit of time for all of
-- them; a delay is a signed number of these units.
pub mod Invariant
pub mod Pending
pub mod Promotion
pub mod Blocking
pub mod Workers
pub mod Owed
pub mod Spec
mod Examples
use cert_publisher.Prelude.{
  ℕ, zero, suc, ◌+◌, ◌-◌, min, String, Bool, true, false, ◌&&◌, ◌||◌, Option, none, some, List, [],
  ◌∷◌, ◌++◌, length, ltb, leb, nat_eq, if◌then◌else◌,
}
use cert_publisher.Prelude.Keys.{Dict, contains, insert, discard, get, put, remove}
use cert_publisher.Prelude.Int.{ℤ, pos, pos_part, leb_ℤ}

-- An element `(due, sequence, key)` of the heap.
pub record Entry : Type 0 where
  pub due : ℕ
  pub sequence : ℕ
  pub key : String

pub record WorkQueue : Type 0 where
  pub queue : List String
  pub dirty : List String
  pub processing : List String
  -- The heap, in the order in which its elements would be popped.
  pub waiting : List Entry
  pub deadlines : Dict ℕ
  pub next_sequence : ℕ
  pub is_shutdown : Bool

abbrev pub init : WorkQueue
init = record {
  queue = [];
  dirty = [];
  processing = [];
  waiting = [];
  deadlines = [];
  next_sequence = 0;
  is_shutdown = false;
}

-- The order of the tuples: sequence numbers are distinct, so the keys are never compared.
abbrev pub before : Entry → Entry → Bool
before a b = ltb a.due b.due || (nat_eq a.due b.due && ltb a.sequence b.sequence)

-- heapq.heappush
pub heappush : Entry → List Entry → List Entry
heappush e [] = e ∷ []
heappush e (w ∷ ws) = if before e w then e ∷ w ∷ ws else w ∷ heappush e ws

pub add_locked : String → WorkQueue → WorkQueue
add_locked key q =
    if q.is_shutdown || contains key q.dirty
    then q
    else if contains key q.processing
    then record q { deadlines = remove key q.deadlines; dirty = insert key q.dirty }
    else record q {
      deadlines = remove key q.deadlines;
      dirty = insert key q.dirty;
      queue = q.queue ++ key ∷ [];
    }

unfoldable pub add : String → WorkQueue → WorkQueue
unfolding add_locked
add key q = add_locked key q

schedule : String → ℕ → WorkQueue → WorkQueue
schedule key due q = record q {
  deadlines = put key due q.deadlines;
  waiting = heappush (record { due = due; sequence = q.next_sequence; key = key }) q.waiting;
  next_sequence = suc q.next_sequence;
}

-- `existing is not None and existing <= due`
nearer : Option ℕ → ℕ → Bool
nearer none due = false
nearer (some existing) due = leb existing due

pub add_after : String → ℤ → ℕ → WorkQueue → WorkQueue
unfolding add schedule nearer
add_after key delay now q =
    if leb_ℤ delay (pos 0)
    then add key q
    else if q.is_shutdown
    then q
    else if nearer (get key q.deadlines) (now + pos_part delay)
    then q
    else schedule key (now + pos_part delay) q

-- `self._deadlines.get(key) == due`
is_deadline : Option ℕ → ℕ → Bool
is_deadline none due = false
is_deadline (some d) due = nat_eq d due

-- The body of the loop of `_promote_due_locked`, for the entry that was popped.
pub settle : Entry → WorkQueue → WorkQueue
unfolding add_locked is_deadline
settle w q =
    if is_deadline (get w.key q.deadlines) w.due
    then add_locked w.key (record q { deadlines = remove w.key q.deadlines })
    else q

-- The loop, over what is left of the heap.
promote_from : ℕ → List Entry → WorkQueue → WorkQueue
promote_from now [] q = record q { waiting = [] }
promote_from now (w ∷ ws) q =
    let rest = promote_from now ws (settle w q) in
    if leb w.due now then rest else record q { waiting = w ∷ ws }

pub promote_due : ℕ → WorkQueue → WorkQueue
unfolding promote_from settle
promote_due now q = promote_from now q.waiting q

-- What one round of the loop of `get` does: return a key, return `None`, or wait on the condition
-- for some time.
pub data Round : Type 0 where
  handed : String → WorkQueue → Round
  gave_up : WorkQueue → Round
  waits : ℕ → WorkQueue → Round

-- The earlier of the caller's deadline and the next delayed add. A negative wait is cut to 0.
wait_time : ℕ → ℕ → List Entry → ℕ
wait_time deadline now [] = deadline - now
wait_time deadline now (w ∷ ws) = min (deadline - now) (w.due - now)

take_key : ℕ → ℕ → WorkQueue → List String → Round
unfolding wait_time
take_key deadline now q [] =
    if leb deadline now then gave_up q else waits (wait_time deadline now q.waiting) q
take_key deadline now q (key ∷ rest) =
    handed key
      (record q { queue = rest; dirty = discard key q.dirty; processing = insert key q.processing })

-- The clock is read twice in a round: before the promotion and after it.
pub get_round : ℕ → ℕ → ℕ → WorkQueue → Round
unfolding take_key
get_round deadline promote_at now q =
    if q.is_shutdown
    then gave_up q
    else take_key deadline now (promote_due promote_at q) (promote_due promote_at q).queue

pub done : String → WorkQueue → WorkQueue
done key q =
    if contains key q.dirty
    then record q { processing = discard key q.processing; queue = q.queue ++ key ∷ [] }
    else record q { processing = discard key q.processing }

pub shutdown : WorkQueue → WorkQueue
shutdown q = record q { is_shutdown = true }

-- `__len__`
pub size : WorkQueue → ℕ
size q = length q.queue + length q.waiting

-- The calls that the other threads make.
pub data Call : Type 0 where
  adds : String → Call
  adds_after : String → ℤ → ℕ → Call
  finishes : String → Call
  shuts_down : Call

unfoldable pub apply : Call → WorkQueue → WorkQueue
apply (adds key) q = add key q
apply (adds_after key delay now) q = add_after key delay now q
apply (finishes key) q = done key q
apply shuts_down q = shutdown q
