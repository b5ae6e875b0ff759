-- ===== src/WorkQueue/Blocking.antt =====
-- `get` as a whole: its rounds, with what the other threads do while it waits.
use cert_publisher.Prelude.{
  ℕ, ◌+◌, ◌-◌, ◌≤◌, ◌<◌, String, ◌≡◌, refl, inl, inr, true, Option, none, some, List, [], ◌∷◌, ◌++◌,
  arith, leb, min, Bool-cases, All, All-map, leb→lt,
}
use cert_publisher.WorkQueue.{
  Entry, WorkQueue, Round, handed, gave_up, waits, wait_time, get_round, take_key, Call, adds,
  adds_after, finishes, shuts_down, apply, shutdown, add, add_locked, add_after, schedule, done,
}
use cert_publisher.WorkQueue.Promotion.{IsTimely, IsSorted, promote_due-IsTimely}

-- A time at which a round of `get` runs: what the other threads did since the last round, while
-- the lock was not held, and the two readings of the clock.
pub record Wake : Type 0 where
  pub calls : List Call
  pub promote_at : ℕ
  pub now : ℕ

pub apply_all : List Call → WorkQueue → WorkQueue
apply_all [] q = q
apply_all (c ∷ cs) q = apply_all cs (apply c q)

pub data Outcome : Type 0 where
  returned : Option String → WorkQueue → Outcome
  blocked : WorkQueue → Outcome

-- One round's outcome, and how the loop goes on if the round waits.
continue : Round → (WorkQueue → Outcome) → Outcome
continue (handed key q) rest = returned (some key) q
continue (gave_up q) rest = returned none q
continue (waits t q) rest = rest q

-- The loop of `get`, over the wakes of this thread. `started` is the clock at the call.
get_until : ℕ → List Wake → WorkQueue → Outcome
get_until deadline [] q = blocked q
get_until deadline (w ∷ ws) q =
    continue (get_round deadline w.promote_at w.now (apply_all w.calls q))
      (λ r. get_until deadline ws r)

pub get : ℕ → ℕ → List Wake → WorkQueue → Outcome
unfolding get_until continue
get started timeout wakes q = get_until (started + timeout) wakes q

abbrev pub HasReturned : Outcome → Type 0
HasReturned (returned r q) = Unit
HasReturned (blocked q) = ⊥

take_key-ends :
    (deadline now : ℕ) (q : WorkQueue) (keys : List String) (rest : WorkQueue → Outcome)
    → deadline ≤ now
    → HasReturned (continue (take_key deadline now q keys) rest)
unfolding take_key continue
take_key-ends deadline now q [] rest h = ground arith
take_key-ends deadline now q (key ∷ keys) rest h = tt

round_ends :
    (deadline promote_at now : ℕ) (q : WorkQueue) (rest : WorkQueue → Outcome)
    → deadline ≤ now
    → HasReturned (continue (get_round deadline promote_at now q) rest)
unfolding get_round
round_ends deadline promote_at now q rest h = elim (Bool-cases q.is_shutdown) [
  | inl e ↦ simp e (unfold continue in tt)
  | inr e ↦ simp e (take_key-ends deadline now _ _ rest h)
]

continue-HasReturned :
    (r : Round) (rest : WorkQueue → Outcome)
    → ((q : WorkQueue) → HasReturned (rest q))
    → HasReturned (continue r rest)
unfolding continue
continue-HasReturned (handed key q) rest h = tt
continue-HasReturned (gave_up q) rest h = tt
continue-HasReturned (waits t q) rest h = h q

get_until-returns :
    (deadline : ℕ) (earlier : List Wake) (w : Wake) (later : List Wake) (q : WorkQueue)
    → deadline ≤ w.now
    → HasReturned (get_until deadline (earlier ++ w ∷ later) q)
unfolding get_until
get_until-returns deadline [] w later q h = round_ends deadline w.promote_at w.now _ _ h
get_until-returns deadline (v ∷ earlier) w later q h =
    continue-HasReturned (get_round deadline v.promote_at v.now (apply_all v.calls q)) _
      (λ r. get_until-returns deadline earlier w later r h)

-- `get` does not outlive its timeout: whatever the other threads do, and however often it is woken
-- early, it returns at the latest at its first wake that reads the clock at or past the timeout.
pub get-returns :
    (started timeout : ℕ) (earlier : List Wake) (w : Wake) (later : List Wake) (q : WorkQueue)
    → started + timeout ≤ w.now
    → HasReturned (get started timeout (earlier ++ w ∷ later) q)
unfolding get
get-returns started timeout earlier w later q h = get_until-returns _ earlier w later q h

pub apply-is_shutdown :
    (c : Call) (q : WorkQueue) → q.is_shutdown ≡ true → (apply c q).is_shutdown ≡ true
unfolding apply add add_locked add_after schedule done shutdown
apply-is_shutdown (adds key) q h = ground arith
apply-is_shutdown (adds_after key delay now) q h = ground arith
apply-is_shutdown (finishes key) q h = ground arith
apply-is_shutdown shuts_down q h = refl

apply_all-is_shutdown :
    (cs : List Call) (q : WorkQueue) → q.is_shutdown ≡ true → (apply_all cs q).is_shutdown ≡ true
unfolding apply_all
apply_all-is_shutdown [] q h = h
apply_all-is_shutdown (c ∷ cs) q h = apply_all-is_shutdown cs (apply c q) (apply-is_shutdown c q h)

-- Once the queue is shut down, `get` returns `None` at its next wake, with keys queued or not, and
-- takes nothing from the queue.
pub get-shutdown :
    (started timeout : ℕ) (w : Wake) (later : List Wake) (q : WorkQueue)
    → q.is_shutdown ≡ true
    → get started timeout (w ∷ later) q ≡ returned none (apply_all w.calls q)
unfolding get get_until get_round continue
get-shutdown started timeout w later q h = simp (apply_all-is_shutdown w.calls q h)

-- The wait ends no later than the caller's deadline and than the next delayed add.
abbrev pub WaitsInTime : ℕ → ℕ → Round → Type 0
WaitsInTime deadline now (handed key q) = Unit
WaitsInTime deadline now (gave_up q) = Unit
WaitsInTime deadline now (waits t q) =
    (q.queue ≡ []) × (now < deadline) × (now + t ≤ deadline) × All (λ e. t ≤ e.due - now) q.waiting

wait_time-All :
    (deadline now : ℕ) (ws : List Entry)
    → IsSorted ws
    → All (λ e. wait_time deadline now ws ≤ e.due - now) ws
unfolding wait_time
wait_time-All deadline now [] s = tt
wait_time-All deadline now (w ∷ ws) s = (
  omega arith,
  All-map (λ (e : Entry). w.due ≤ e.due)
      (λ (e : Entry). min (deadline - now) (w.due - now) ≤ e.due - now) ws (λ e l. omega arith) s.0,
)

wait_time-le : (deadline now : ℕ) (ws : List Entry) → wait_time deadline now ws ≤ deadline - now
unfolding wait_time
wait_time-le deadline now [] = omega arith
wait_time-le deadline now (w ∷ ws) = omega arith

take_key-WaitsInTime :
    (deadline now : ℕ) (q : WorkQueue) (keys : List String)
    → q.queue ≡ keys
    → IsTimely q
    → WaitsInTime deadline now (take_key deadline now q keys)
unfolding take_key
take_key-WaitsInTime deadline now q [] e v = elim (Bool-cases (leb deadline now)) [
  | inl l ↦ simp l tt
  | inr l ↦ simp l (
      (
        e,
        leb→lt deadline now l,
        omega (arith, leb→lt deadline now l, wait_time-le deadline now q.waiting),
        wait_time-All deadline now q.waiting v.sorted,
      ))
]
take_key-WaitsInTime deadline now q (key ∷ keys) e v = tt

-- With a heap that is sorted and has an entry for every deadline, a round waits only while nothing
-- is queued and the deadline is to come, and it waits neither past the deadline nor past any delayed
-- add.
pub get_round-WaitsInTime :
    (deadline promote_at now : ℕ) (q : WorkQueue)
    → IsTimely q
    → WaitsInTime deadline now (get_round deadline promote_at now q)
unfolding get_round
get_round-WaitsInTime deadline promote_at now q v = elim (Bool-cases q.is_shutdown) [
  | inl e ↦ simp e tt
  | inr e ↦
      simp e (take_key-WaitsInTime deadline now _ _ refl (promote_due-IsTimely promote_at q v))
]
