-- ===== src/Controller/Worker.antt =====
-- src/cert_publisher/controller.py, class Controller: one round of a worker. All times are
-- microseconds. The other threads act on the queue between any two operations of this worker.
pub mod Moves
pub mod Owed
pub mod Failure
use cert_publisher.Prelude.{
  ℕ, zero, suc, ◌+◌, ◌*◌, ◌/◌, String, Bool, true, false, Option, none, some, List, [], ◌∷◌, ltb,
  if◌then◌else◌,
}
use cert_publisher.Prelude.Keys.{Dict, put, remove}
use cert_publisher.Prelude.Int.{ℤ, pos, ◌+ℤ◌, leb_ℤ, ltb_ℤ}
use cert_publisher.Prelude.Text.{concat}
use cert_publisher.Resources.{Publication}
use cert_publisher.Effects.{
  Exception, Result, ok, raised, World, History, State, Action, ◌>>=◌, ◌>>◌,
}
use cert_publisher.Kube.{read_publication}
use cert_publisher.Status.{Options, defaults, error, set_status}
use cert_publisher.Reconcile.{reconcile_publication}
use cert_publisher.Reconcile.Renewal.{Requeue}
use cert_publisher.Reconcile.Signing.{retry_time}
use cert_publisher.WorkQueue as WorkQueue
use cert_publisher.WorkQueue.{Call, apply, get_round}
use cert_publisher.WorkQueue.Invariant.{after}
use cert_publisher.Backoff.{RateLimitingQueue, add_rate_limited, queue_failures, queue_forget}
use cert_publisher.Controller.Keys.{before_slash, after_slash}

-- An atomic step of another thread on the queue: a method call, a round of `get`, or what a worker
-- does with the counts of failures.
pub data Move : Type 0 where
  calls : Call → Move
  rounds : ℕ → ℕ → ℕ → Move
  fails : String → ℤ → ℕ → Move
  succeeds : String → Move

unfoldable pub apply_move : Move → RateLimitingQueue → RateLimitingQueue
apply_move (calls c) q = record q { queue = apply c q.queue }
apply_move (rounds deadline promote_at now) q = record q {
  queue = after (get_round deadline promote_at now q.queue);
}
apply_move (fails key draw now) q = (add_rate_limited key draw now q).1
apply_move (succeeds key) q = queue_forget key q

unfoldable pub apply_moves : List Move → RateLimitingQueue → RateLimitingQueue
apply_moves [] q = q
apply_moves (m ∷ ms) q = apply_moves ms (apply_move m q)

-- What a round meets at its operations on the queue, by their number: the steps of the others since
-- the last one, the monotonic clock, and the random draws of the back-off and of the resync. `str`
-- and `fixed` are the formats of a number, and of a quotient with some decimals.
pub record Surroundings : Type 0 where
  pub moves : ℕ → List Move
  pub monotonic : ℕ → ℕ
  pub draw : ℕ → ℤ
  pub scatter : ℕ → ℤ
  pub str : ℕ → String
  pub fixed : ℕ → ℤ → ℕ → String

-- The state: the queue, the number of operations so far, what each worker reconciles and since when,
-- the calls of this round and the readings of the wall clock.
pub record Control : Type 0 where
  pub queue : RateLimitingQueue
  pub operations : ℕ
  pub in_flight : Dict (String × ℕ)
  pub history : History
  pub readings : ℕ

-- `_pretty`
unfoldable pub pretty : Surroundings → ℤ → String
pretty env delay =
    if ltb_ℤ delay (pos 60000000)
    then concat (env.fixed 0 delay 1000000 ∷ "s" ∷ [])
    else if ltb_ℤ delay (pos 3600000000)
    then concat (env.fixed 0 delay 60000000 ∷ "m" ∷ [])
    else concat (env.fixed 1 delay 3600000000 ∷ "h" ∷ [])

-- `max(0.0, delay)`
pub at_least_zero : ℤ → ℤ
at_least_zero delay = if leb_ℤ (pos 0) delay then delay else pos 0

module _ (env : Surroundings) where
  -- The queue as an operation finds it.
  unfoldable pub reached : Control → RateLimitingQueue
  reached c = apply_moves (env.moves c.operations) c.queue

  -- One operation, with its number.
  unfoldable pub operate :
      {A : Type 0} → (ℕ → RateLimitingQueue → A × RateLimitingQueue) → Control → A × Control
  unfolding reached
  operate f c =
      let (a, q) = f c.operations (reached c) in
      (a, record c { queue = q; operations = suc c.operations })

  -- `self._queue.add_rate_limited(key)`
  unfoldable pub back_off : String → Control → ℤ × Control
  unfolding operate
  back_off key = operate (λ n q. add_rate_limited key (env.draw n) (env.monotonic n) q)

  unfoldable pub count_failures : String → Control → ℕ × Control
  unfolding operate
  count_failures key = operate (λ n q. (queue_failures key q, q))

  unfoldable pub forget : String → Control → Control
  unfolding operate
  forget key c = (operate (λ n q. (tt {0}, queue_forget key q)) c).1

  unfoldable pub add_after : String → (ℕ → ℤ) → Control → Control
  unfolding operate
  add_after key delay c =
      (operate
        (λ n q. (
          tt {0},
          record q { queue = WorkQueue.add_after key (delay n) (env.monotonic n) q.queue },
        ))
        c).1

  unfoldable pub done : String → Control → Control
  unfolding operate
  done key c = (operate (λ n q. (tt {0}, record q { queue = WorkQueue.done key q.queue })) c).1

  -- The state of a worker that `get` has handed a key.
  unfoldable pub begin : String → String → Control → Control
  begin worker key c = record c {
    in_flight = put worker (key, env.monotonic c.operations) c.in_flight;
  }

  unfoldable pub end : String → Control → Control
  end worker c = record c { in_flight = remove worker c.in_flight }

  -- `_enqueue_resync`
  unfoldable pub enqueue_resync : ℕ → String → Control → Control
  unfolding add_after at_least_zero
  enqueue_resync interval key = add_after key (λ n. at_least_zero (pos interval +ℤ env.scatter n))

  -- `_requeue`
  unfoldable pub requeue : ℕ → String → Requeue → Control → Control
  unfolding enqueue_resync
  requeue interval key none = enqueue_resync interval key
  requeue interval key (some delay) = add_after key (λ n. delay)

  pub failure_message : Exception → ℕ → ℤ → String
  failure_message e attempt delay =
      concat
        (e.text ∷ " (attempt " ∷ env.str attempt ∷ "; retrying in " ∷ pretty env delay ∷ ")" ∷ [])

  module _ ⦃w : World⦄ where
    -- What `_fail` writes to the publication.
    unfoldable pub report_failure : Exception → ℕ → ℤ → Action (Unit {0})
    report_failure e attempt delay = do
      retry_at ← retry_time delay
      set_status error (failure_message e attempt delay)
          (record defaults { next_retry = some retry_at })

    -- The publication in memory is the one that the pass has left.
    unfoldable pub fail : String → Exception → State → Control → Control
    fail key e s c =
        let (delay, c₁) = back_off key c in
        let (attempt, c₂) = count_failures key c₁ in
        let (_, t) = report_failure e attempt delay s in
        record c₂ { history = t.history; readings = t.readings }

    unfoldable pub after_pass : ℕ → String → Result Requeue × State → Control → Control
    unfolding fail
    after_pass interval key (raised e, s) c = fail key e s c
    after_pass interval key (ok result, s) c =
        requeue interval key result
          (forget key (record c { history = s.history; readings = s.readings }))

    unfoldable pub after_read : ℕ → String → Result (Option Publication) → Control → Control
    unfolding after_pass
    after_read interval key (raised e) c = (back_off key c).1
    after_read interval key (ok none) c = forget key c
    after_read interval key (ok (some p)) c =
        after_pass interval key
          (reconcile_publication
            (record { publication = p; history = c.history; readings = c.readings }))
          c

    -- `_reconcile`
    unfoldable pub reconcile : ℕ → String → Control → Control
    unfolding after_read
    reconcile interval key c =
        let (r, h) = read_publication (before_slash key) (after_slash key) c.history in
        after_read interval key r (record c { history = h })

    -- A round of `_work` with a key that `get` handed out. The model of `_reconcile` returns always,
    -- so the `finally` is what follows it.
    unfoldable pub work : ℕ → String → String → Control → Control
    unfolding begin end done
    work interval worker key c = done key (end worker (reconcile interval key (begin worker key c)))
