-- ===== src/WorkQueue/Examples.antt =====
-- The properties of the queue, on small queues.
use cert_publisher.Prelude.{ℕ, ◌≡◌, refl, none, some, [], ◌∷◌, ◌++◌, arith}
use cert_publisher.Prelude.Keys.{contains, get, insert, discard, remove}
use cert_publisher.WorkQueue.{
  WorkQueue, init, Round, handed, adds, adds_after, finishes, shuts_down, apply, add, add_after,
  done, promote_due, get_round, take_key, promote_from,
}
use cert_publisher.WorkQueue.Invariant.{
  IsSerial, init-IsSerial, after, add-IsSerial, apply-IsSerial, get_round-IsSerial,
}
use cert_publisher.WorkQueue.Promotion.{
  IsTimely, promote_due-deadline, add_after-deadline, nearest, get_round-IsTimely, apply-IsTimely,
}
use cert_publisher.WorkQueue.Blocking as Blocking
use cert_publisher.WorkQueue.Blocking.{
  Wake, get-returns, get-shutdown, get_round-WaitsInTime, HasReturned, returned, apply_all,
  WaitsInTime,
}
use cert_publisher.WorkQueue.Workers.{
  System, start, update, Step, Reach, never_concurrent, get_round-exclusive,
}
use cert_publisher.WorkQueue.Workers as Workers
use cert_publisher.WorkQueue.Spec.{view, perform, Serves, seen}
use cert_publisher.WorkQueue.Spec.Refines.{apply-refines, get_round-Serves}
use cert_publisher.Samples.{queued, in_flight, scheduled}

abbrev one_queued : System
one_queued = record { queue = queued; holds = λ w. none }

abbrev one_worker : System
one_worker = record { queue = in_flight; holds = update 3 (some "a") (λ w. none) }

queued-Step : Step start one_queued
unfolding add cert_publisher.WorkQueue.add_locked contains insert remove
queued-Step = Workers.adds "a"

one_worker-Reach : Reach start one_worker
unfolding get_round take_key promote_due promote_from contains insert discard
one_worker-Reach =
    Workers.next (Workers.next Workers.here queued-Step)
      (Workers.takes 3 9 0 0 "a" in_flight refl refl)

never_concurrent_example : ◌≡◌ {A = ℕ} 3 3
unfolding update
never_concurrent_example = never_concurrent one_worker 3 3 "a" one_worker-Reach refl refl

queued-IsSerial : IsSerial queued
unfolding add cert_publisher.WorkQueue.add_locked contains insert remove
queued-IsSerial = add-IsSerial "a" init init-IsSerial

get_round-IsSerial_example : IsSerial (after (get_round 9 0 0 queued))
get_round-IsSerial_example = get_round-IsSerial 9 0 0 queued queued-IsSerial

apply-IsSerial_example : IsSerial (apply (adds "b") queued)
apply-IsSerial_example = apply-IsSerial (adds "b") queued tt queued-IsSerial

scheduled-IsTimely : IsTimely scheduled
unfolding get cert_publisher.WorkQueue.Promotion.has_entry
scheduled-IsTimely = record { entered = λ key due h. ground arith; sorted = (tt, tt) }

get_round-IsTimely_example : IsTimely (after (get_round 9 7 7 scheduled))
get_round-IsTimely_example = get_round-IsTimely 9 7 7 scheduled scheduled-IsTimely

get-returns_example :
    HasReturned
      (Blocking.get 0 3 ([] ++ record { calls = adds "a" ∷ []; promote_at = 4; now = 4 } ∷ []) init)
get-returns_example =
    get-returns 0 3 [] (record { calls = adds "a" ∷ []; promote_at = 4; now = 4 }) [] init
      (omega arith)

get_round-WaitsInTime_example : WaitsInTime 9 3 (get_round 9 3 3 scheduled)
get_round-WaitsInTime_example = get_round-WaitsInTime 9 3 3 scheduled scheduled-IsTimely

apply-refines_example :
    view (apply (finishes "a") in_flight) ≡ perform (finishes "a") (view in_flight)
unfolding contains
apply-refines_example = apply-refines (finishes "a") in_flight refl

get_round-Serves_example : Serves 7 (view scheduled) (seen (get_round 9 7 7 scheduled))
get_round-Serves_example = get_round-Serves 9 7 7 scheduled scheduled-IsTimely
