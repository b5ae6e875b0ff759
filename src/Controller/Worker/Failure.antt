-- ===== src/Controller/Worker/Failure.antt =====
-- What a failed pass leaves: the count of its failures, and the status of the publication.
use cert_publisher.Prelude.{
  ◌≡◌, refl, String, ℕ, ◌+◌, some, false, All, List, [], ◌∷◌, ◌==◌, arith, ◌∙◌, subst, ◌⊎◌, inl,
  inr,
}
use cert_publisher.Prelude.Int.{ℤ, pos, ◌+ℤ◌, pos_part}
use cert_publisher.Prelude.Keys.{self_eq}
use cert_publisher.Resources.{StatusPatch}
use cert_publisher.Effects.{World, Exception, Result, ok, raised, State, now_utc, pure, ◌>>=◌}
use cert_publisher.Effects.Hoare.{Post}
use cert_publisher.Utils.{rfc3339}
use cert_publisher.Reconcile.Signing.{retry_time}
use cert_publisher.Status.{Options, error, defaults}
use cert_publisher.Status.Outcome.{
  IsPatch, IsStored, IsDropped, Reported, Reported-Post, set_status_lem,
}
use cert_publisher.Backoff.{RateLimitingQueue, add_rate_limited, queue_forget, queue_failures}
use cert_publisher.Backoff.Requeue.{failures-next_backoff, failures-forget}
use cert_publisher.Controller.Worker.{
  Move, calls, rounds, fails, succeeds, apply_move, apply_moves, Surroundings, Control, reached,
  operate, back_off, count_failures, report_failure, failure_message, fail,
}

-- The step counts nothing for this key.
abbrev pub SparesCount : String → Move → Type 0
SparesCount k (fails key draw now) = (key == k) ≡ false
SparesCount k (succeeds key) = (key == k) ≡ false
SparesCount k _ = Unit

-- What holds in both cases, of the state.
Post-state :
    {A : Type 0} (P : State → Type 0) (r : Result A × State)
    → Post (λ _ t. P t) (λ _ t. P t) r
    → P r.1
Post-state P (ok a, t) h = h
Post-state P (raised e, t) h = h

module _ (k : String) where
  apply_move-failures :
      (m : Move) (q : RateLimitingQueue)
      → SparesCount k m
      → queue_failures k (apply_move m q) ≡ queue_failures k q
  unfolding apply_move queue_failures add_rate_limited queue_forget
  apply_move-failures (calls c) q s = refl
  apply_move-failures (rounds deadline promote_at now) q s = refl
  apply_move-failures (fails key draw now) q s =
      ground (arith, failures-next_backoff key k draw q.backoff)
  apply_move-failures (succeeds key) q s = ground (arith, failures-forget key k q.backoff)

  apply_moves-failures :
      (ms : List Move) (q : RateLimitingQueue)
      → All (SparesCount k) ms
      → queue_failures k (apply_moves ms q) ≡ queue_failures k q
  unfolding apply_moves
  apply_moves-failures [] q s = refl
  apply_moves-failures (m ∷ ms) q s =
      apply_moves-failures ms (apply_move m q) s.1 ∙ apply_move-failures m q s.0

module _ (env : Surroundings) (k : String)
    (sparing : (n : ℕ) → All (SparesCount k) (env.moves n)) where
  reached-failures : (c : Control) → queue_failures k (reached env c) ≡ queue_failures k c.queue
  unfolding reached
  reached-failures c =
      apply_moves-failures k (env.moves c.operations) c.queue (sparing c.operations)

  back_off-failures :
      (c : Control) → queue_failures k (back_off env k c).1.queue ≡ queue_failures k c.queue + 1
  unfolding back_off operate add_rate_limited queue_failures
  back_off-failures c = ground (
    arith,
    failures-next_backoff k k (env.draw c.operations) (reached env c).backoff,
    self_eq k,
    reached-failures c,
  )

  count_failures_lem :
      (c : Control)
      → ((count_failures env k c).0 ≡ queue_failures k c.queue)
        × (queue_failures k (count_failures env k c).1.queue ≡ queue_failures k c.queue)
  unfolding count_failures operate
  count_failures_lem c = (reached-failures c, reached-failures c)

  module _ ⦃w : World⦄ where
    report_failure_lem :
        (e : Exception) (attempt : ℕ) (delay : ℤ) (s : State)
        → (patch : StatusPatch) × IsPatch s.publication error
            (failure_message env e attempt delay)
            (record defaults {
              next_retry = some (rfc3339 (pos_part (pos (w.clock s.readings) +ℤ delay)));
            })
            patch
          × Reported s
              (record defaults {
                next_retry = some (rfc3339 (pos_part (pos (w.clock s.readings) +ℤ delay)));
              })
              patch
              (report_failure env e attempt delay s)
    unfolding report_failure retry_time now_utc pure ◌>>=◌
    report_failure_lem e attempt delay s = set_status_lem error _ _ _

    abbrev pub retry_options : ℤ → State → Options
    retry_options delay s = record defaults {
      next_retry = some (rfc3339 (pos_part (pos (w.clock s.readings) +ℤ delay)));
    }

    settled :
        (e : Exception) (attempt : ℕ) (delay : ℤ) (s : State) (patch : StatusPatch)
        → Reported s (retry_options delay s) patch (report_failure env e attempt delay s)
        → IsStored s patch (report_failure env e attempt delay s).1
          ⊎ IsDropped s patch (report_failure env e attempt delay s).1
    settled e attempt delay s patch r =
        Post-state (λ t. IsStored s patch t ⊎ IsDropped s patch t) _
          (Reported-Post _ _ s (retry_options delay s) patch (report_failure env e attempt delay s)
            r (λ _ t h. inl h) (λ _ t _ h. inr h) (λ x t _ h. inr h))

    -- When a pass raises an exception and no other thread counts a failure or a success for the key
    -- meanwhile, the key's failures are one more than before, and the status is patched once: the
    -- phase `Error`, a message with the exception, the number of the attempt and the delay of the
    -- back-off, and the time of the next retry, which is the present plus that delay. Either the
    -- server takes the patch, or nothing else has happened.
    pub fail_lem :
        (e : Exception) (s : State) (c : Control)
        → (queue_failures k (fail env k e s c).queue ≡ queue_failures k c.queue + 1)
          × (patch : StatusPatch) × (t : State) × IsPatch s.publication error
              (failure_message env e (queue_failures k c.queue + 1) (back_off env k c).0)
              (retry_options (back_off env k c).0 s)
              patch
          × (IsStored s patch t ⊎ IsDropped s patch t)
          × ((fail env k e s c).history ≡ t.history)
    unfolding fail
    fail_lem e s c =
        let b : Control = (back_off env k c).1 in
        let delay : ℤ = (back_off env k c).0 in
        let n : ℕ = (count_failures env k b).0 in
        let (patch, i, r) = report_failure_lem e n delay s in
        (
          (count_failures_lem b).1 ∙ back_off-failures c,
          patch,
          (report_failure env e n delay s).1,
          subst
              (λ m.
                IsPatch s.publication error (failure_message env e m delay) (retry_options delay s)
                  patch)
              ((count_failures_lem b).0 ∙ back_off-failures c) i,
          settled e n delay s patch r,
          refl,
        )
