-- ===== src/Controller/Lifecycle/Silence.antt =====
-- The liveness probe and the loop of a watcher: a loop that hangs is found, one that fails and waits
-- is not taken for one that hangs.
use cert_publisher.Prelude.{
  ℕ, ◌+◌, ◌*◌, ◌/◌, ◌<◌, ◌≡◌, ◌⊎◌, inl, inr, true, false, Option, some, List, [], ◌∷◌, arith,
  String,
}
use cert_publisher.Prelude.Int.{ℤ, pos, ◌+ℤ◌, ◌≤ℤ◌, +ℤ_parts, -ℤ_parts}
use cert_publisher.Effects.{Exception}
use cert_publisher.Kube.{has_status}
use cert_publisher.Controller.Watcher.{WatchedResource, Watcher, Turn}
use cert_publisher.Controller.Watcher.Run.{turn, attempt}
use cert_publisher.Controller.Watcher.Run.Clock.{
  IsTimely, IsCurrent, turn-Ahead, turn-last_healthy, wait_of,
}
use cert_publisher.Controller.Lifecycle.{
  ControllerConfig, Controller, watch_config, threshold, is_silent, any_silent, healthy,
}

-- The watcher is among those of the controller.
abbrev pub Has : WatchedResource × Watcher → List (WatchedResource × Watcher) → Type 0
Has x [] = ⊥
Has x (y ∷ ys) = (y ≡ x) ⊎ Has x ys

any_silent-Has :
    (config : ControllerConfig) (now : ℕ) (r : WatchedResource) (w : Watcher)
    (ws : List (WatchedResource × Watcher))
    → Has (r, w) ws
    → is_silent config now w ≡ true
    → any_silent config now ws ≡ true
unfolding any_silent
any_silent-Has config now r w [] h s = elim h [ ]
any_silent-Has config now r w ((q, v) ∷ ws) (inl e) s = ground arith
any_silent-Has config now r w ((q, v) ∷ ws) (inr h) s =
    ground (arith, any_silent-Has config now r w ws h s)

silent :
    (config : ControllerConfig) (now limit : ℕ) (w : Watcher)
    → w.last_healthy ≤ℤ pos limit
    → limit + threshold config < now
    → is_silent config now w ≡ true
silent config now limit w h l = ground (arith, -ℤ_parts (pos now) w.last_healthy)

module _ (config : ControllerConfig) (now : ℕ) (r : WatchedResource) (version : Option String)
    (w : Watcher) (t : Turn) where
  -- A watcher whose loop hangs is found: if nothing comes after an iteration, however it ended, then
  -- from the threshold and the longest back-off (a tenth over the maximum) behind its end on, the
  -- controller that has the watcher and was started is not healthy. The clock of the iteration does
  -- not run backwards, its draw is within the jitter, and the watcher was not ahead of the clock.
  pub healthy-hang :
      (c : Controller)
      → IsTimely t
      → IsCurrent config.backoff_max t.ended w
      → c.started ≡ true
      → Has (r, (turn r (watch_config config) t version w).watcher) c.watchers
      → t.ended + config.backoff_max * 1100 / 1000 + threshold config < now
      → healthy config now c ≡ false
  unfolding healthy
  healthy-hang c i u s h l =
      let w' : Watcher = (turn r (watch_config config) t version w).watcher in
      ground (
        arith,
        s,
        any_silent-Has config now r w' c.watchers h (
            silent config now (t.ended + config.backoff_max * 1100 / 1000) w'
              (turn-Ahead config.backoff_max r (watch_config config) t i version w u) l),
      )

  -- A watcher that fails is not taken for one that hangs: behind an iteration that failed, not with
  -- an expired watch and not at a stop, the probe does not find the watcher silent before the whole
  -- wait of the back-off and the threshold have passed.
  pub is_silent-failure :
      (e : Exception)
      → (attempt r t version w).failure ≡ some e
      → has_status 410 e.kind ≡ false
      → t.stopping ≡ false
      → pos now ≤ℤ ((pos t.ended +ℤ wait_of r t version w) +ℤ pos (threshold config))
      → is_silent config now (turn r (watch_config config) t version w).watcher ≡ false
  is_silent-failure e f n s l =
      let w' : Watcher = (turn r (watch_config config) t version w).watcher in
      let d : ℤ = pos t.ended +ℤ wait_of r t version w in
      rw (turn-last_healthy r (watch_config config) t e version w f n s)
        (ground (arith, -ℤ_parts (pos now) d, +ℤ_parts d (pos (threshold config))))
