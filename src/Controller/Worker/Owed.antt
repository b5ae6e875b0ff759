-- ===== src/Controller/Worker/Owed.antt =====
-- No round of a worker loses its publication: at the end of it the key is scheduled again.
use cert_publisher.Prelude.{◌≢◌, refl, String, ℕ, Option, none, some, All}
use cert_publisher.Prelude.Int.{ℤ, pos, ◌+ℤ◌}
use cert_publisher.Resources.{Publication}
use cert_publisher.Effects.{World, State, Result, ok, raised}
use cert_publisher.Kube.{read_publication}
use cert_publisher.Reconcile.Renewal.{Requeue}
use cert_publisher.WorkQueue as WorkQueue
use cert_publisher.WorkQueue.{finishes, adds_after}
use cert_publisher.WorkQueue.Owed.{IsHeld, IsOwed, apply-IsOwed, add_after-IsOwed}
use cert_publisher.Backoff.{add_rate_limited, queue_forget}
use cert_publisher.Controller.Keys.{before_slash, after_slash}
use cert_publisher.Controller.Worker.{
  apply_move, fails, calls, Surroundings, Control, reached, operate, at_least_zero, back_off,
  count_failures, forget, add_after, enqueue_resync, requeue, fail, after_pass, after_read,
  reconcile, work, begin, end, done,
}
use cert_publisher.Controller.Worker.Moves.{
  SparesMove, IsKept, apply_moves-IsHeld, apply_moves-IsOwed, apply_move-IsHeld,
}

-- No other worker ends a reconcile of this key during the round.
abbrev pub AreSparing : Surroundings → String → Type 0
AreSparing env k = (n : ℕ) → All (SparesMove k) (env.moves n)

module _ (env : Surroundings) (k : String) (sparing : AreSparing env k) where
  reached-IsHeld : (c : Control) → IsHeld k c.queue.queue → IsHeld k (reached env c).queue
  unfolding reached
  reached-IsHeld c v =
      apply_moves-IsHeld k (env.moves c.operations) c.queue (sparing c.operations) v

  reached-IsOwed : (c : Control) → IsKept k c.queue → IsOwed k (reached env c).queue
  unfolding reached
  reached-IsOwed c v =
      apply_moves-IsOwed k (env.moves c.operations) c.queue (sparing c.operations) v.held v.owed

  back_off-IsKept : (c : Control) → IsHeld k c.queue.queue → IsKept k (back_off env k c).1.queue
  unfolding back_off operate add_rate_limited
  back_off-IsKept c v = record {
    held =
        unfold apply_move add_rate_limited in
        apply_move-IsHeld k (fails k (env.draw c.operations) (env.monotonic c.operations))
          (reached env c) tt (reached-IsHeld c v);
    owed = add_after-IsOwed k _ _ _;
  }

  count_failures-IsKept :
      (c : Control) → IsKept k c.queue → IsKept k (count_failures env k c).1.queue
  unfolding count_failures operate
  count_failures-IsKept c v = record { held = reached-IsHeld c v.held; owed = reached-IsOwed c v }

  forget-IsHeld : (c : Control) → IsHeld k c.queue.queue → IsHeld k (forget env k c).queue.queue
  unfolding forget operate queue_forget
  forget-IsHeld c v = reached-IsHeld c v

  add_after-IsKept :
      (delay : ℕ → ℤ) (c : Control)
      → IsHeld k c.queue.queue
      → IsKept k (add_after env k delay c).queue
  unfolding add_after operate
  add_after-IsKept delay c v = record {
    held =
        unfold apply_move WorkQueue.apply in
        apply_move-IsHeld k (calls (adds_after k (delay c.operations) (env.monotonic c.operations)))
          (reached env c) tt (reached-IsHeld c v);
    owed = add_after-IsOwed k _ _ _;
  }

  requeue-IsKept :
      (interval : ℕ) (result : Requeue) (c : Control)
      → IsHeld k c.queue.queue
      → IsKept k (requeue env interval k result c).queue
  unfolding requeue enqueue_resync
  requeue-IsKept interval none c v =
      add_after-IsKept (λ n. at_least_zero (pos interval +ℤ env.scatter n)) c v
  requeue-IsKept interval (some delay) c v = add_after-IsKept (λ n. delay) c v

  done-IsOwed : (c : Control) → IsKept k c.queue → IsOwed k (done env k c).queue.queue
  unfolding done operate WorkQueue.apply
  done-IsOwed c v = apply-IsOwed k (finishes k) (reached env c).queue (reached-IsOwed c v)

  module _ ⦃w : World⦄ where
    after_pass-IsKept :
        (interval : ℕ) (p : Result Requeue × State) (c : Control)
        → IsHeld k c.queue.queue
        → IsKept k (after_pass env interval k p c).queue
    unfolding after_pass fail
    after_pass-IsKept interval (raised e, s) c v =
        count_failures-IsKept (back_off env k c).1 (back_off-IsKept c v)
    after_pass-IsKept interval (ok result, s) c v =
        requeue-IsKept interval result _
          (forget-IsHeld (record c { history = s.history; readings = s.readings }) v)

    after_read-IsKept :
        (interval : ℕ) (r : Result (Option Publication)) (c : Control)
        → r ≢ ok none
        → IsHeld k c.queue.queue
        → IsKept k (after_read env interval k r c).queue
    unfolding after_read
    after_read-IsKept interval (raised e) c n v = back_off-IsKept c v
    after_read-IsKept interval (ok none) c n v = absurd (n refl)
    after_read-IsKept interval (ok (some p)) c n v = after_pass-IsKept interval _ c v

    reconcile-IsKept :
        (interval : ℕ) (c : Control)
        → (read_publication (before_slash k) (after_slash k) c.history).0 ≢ ok none
        → IsHeld k c.queue.queue
        → IsKept k (reconcile env interval k c).queue
    unfolding reconcile
    reconcile-IsKept interval c n v = after_read-IsKept interval _ _ n v

    -- No publication is forgotten: a worker's round with a key that is in flight and not queued, and
    -- whose reconcile no other worker ends meanwhile, leaves the key pending or the queue shut down,
    -- whatever else the other threads do to the queue, and whether the read fails, the pass raises
    -- or it returns. Only the answer that the publication does not exist is excepted.
    pub work-IsOwed :
        (interval : ℕ) (worker : String) (c : Control)
        → (read_publication (before_slash k) (after_slash k) c.history).0 ≢ ok none
        → IsHeld k c.queue.queue
        → IsOwed k (work env interval worker k c).queue.queue
    unfolding work begin end
    work-IsOwed interval worker c n v =
        let r : Control = reconcile env interval k (begin env worker k c) in
        done-IsOwed (end env worker r) (reconcile-IsKept interval (begin env worker k c) n v)
