-- ===== src/Controller/Watcher/Run/Clock.antt =====
-- How far ahead of the clock an iteration of the loop can leave the time at which it showed life.
use cert_publisher.Prelude.{
  ℕ, ◌+◌, ◌*◌, ◌/◌, ◌≤◌, ◌≡◌, inl, inr, Bool, true, false, Option, none, some, List, [], arith,
  String, Bool-cases,
}
use cert_publisher.Prelude.Keys.{Dict}
use cert_publisher.Prelude.Int.{ℤ, pos, pos_part, neg_part, ◌+ℤ◌, ◌≤ℤ◌, +ℤ_parts}
use cert_publisher.Effects.{Exception, Result, ok, raised}
use cert_publisher.Kube.{has_status}
use cert_publisher.Backoff.{ExponentialBackoff, next_backoff, plain_delay, failures}
use cert_publisher.Backoff.Growth.{plain_delay_mono, next_backoff_bounds}
use cert_publisher.Controller.Watcher.{
  WatchedResource, WatchConfig, Watcher, SeenState, Turn, Stream, event, closes, breaks, Progress,
  Listing, Wakeup, sync, watch_from, take_listing, next_event, label, handle,
}
use cert_publisher.Controller.Watcher.Run.{
  turn, attempt, settle, failed, succeeded, reconnect, back_off, after_watch, after_sync, watches,
  is_access_lost, is_api,
}

-- The readings of the clock in a watch are at most this one.
abbrev pub EndsBy : ℕ → Stream → Type 0
EndsBy end (event now stop v e more) = (now ≤ end) × EndsBy end more
EndsBy end (closes v) = Unit
EndsBy end (breaks e) = Unit

-- The clock of an iteration does not run backwards, and the draw is within the jitter of a tenth.
pub record IsTimely (t : Turn) : Type 0 where
  pub listed : t.listed ≤ t.ended
  pub streamed : EndsBy t.ended t.stream
  pub above : pos_part t.draw ≤ 100
  pub below : neg_part t.draw ≤ 100

-- The loop has shown life no later than this, and backs off as it was made to.
pub record IsCurrent (maximum : ℕ) (now : ℕ) (w : Watcher) : Type 0 where
  pub shown : w.last_healthy ≤ℤ pos now
  pub jitter_eq : w.backoff.jitter ≡ 100
  pub maximum_eq : w.backoff.maximum ≡ maximum

delay-le :
    (key : String) (draw : ℤ) (b : ExponentialBackoff)
    → b.jitter ≡ 100
    → pos_part draw ≤ 100
    → neg_part draw ≤ 100
    → (next_backoff key draw b).0 ≤ℤ pos (b.maximum * 1100 / 1000)
delay-le key draw b j h l =
    let d : (next_backoff key draw b).0
        ≤ℤ pos (plain_delay b (failures key b) * (1000 + b.jitter) / 1000) =
      (next_backoff_bounds key draw b (omega (arith, j)) (omega (arith, j, h))
        (omega (arith, j, l))).1 in
    omega (arith, simp j at d, (plain_delay_mono b (failures key b)).1)

module _ (maximum : ℕ) (r : WatchedResource) (config : WatchConfig) (t : Turn)
    (i : IsTimely t) where
  abbrev Current : Watcher → Type 0
  Current w = IsCurrent maximum t.ended w

  touch :
      (n : ℕ) (seen : Dict SeenState) (synced : Bool) (w : Watcher)
      → n ≤ t.ended
      → Current w
      → Current (record w { last_healthy = pos n; seen = seen; synced = synced })
  touch n seen synced w h v = record {
    shown = omega (arith, h);
    jitter_eq = v.jitter_eq;
    maximum_eq = v.maximum_eq;
  }

  next_event-Current :
      (k : Result (Option String)) (w : Watcher) (p : Progress)
      → Current w
      → Current p.watcher
      → Current (next_event k w p).watcher
  unfolding next_event
  next_event-Current (ok k) w p v u = u
  next_event-Current (raised e) w p v u = v

  watch_from-Current :
      (version : String) (s : Stream) (w : Watcher)
      → EndsBy t.ended s
      → Current w
      → Current (watch_from r version s w).watcher
  unfolding watch_from
  watch_from-Current version (closes v) w h u = u
  watch_from-Current version (breaks e) w h u = u
  watch_from-Current version (event now stop v e more) w h u = elim (Bool-cases stop) [
    | inl s ↦ simp s (touch now w.seen w.synced w h.0 u)
    | inr s ↦
        let seen : Dict SeenState = (handle r e w.seen).1 in
        let w' : Watcher = record w { last_healthy = pos now; seen = seen } in
        let u' : Current w' = touch now seen w.synced w h.0 u in
        simp s (
          next_event-Current (handle r e w.seen).0 w' (watch_from r version more w') u'
            (watch_from-Current version more w' h.1 u'))
  ]

  take_listing-Current :
      (l : Listing) (w : Watcher) (v : Result String)
      → Current w
      → Current (take_listing r t.listed l w v).watcher
  unfolding take_listing
  take_listing-Current l w (raised e) u = u
  take_listing-Current l w (ok v) u = touch t.listed _ true w i.listed u

  sync-Current :
      (x : Result Listing) (w : Watcher) → Current w → Current (sync r t.listed x w).watcher
  unfolding sync
  sync-Current (raised e) w u = u
  sync-Current (ok l) w u = take_listing-Current l w _ u

  after_watch-Current :
      (known : String) (x : Result String) (woken : List Wakeup) (w : Watcher)
      → Current w
      → Current (after_watch known x woken w).watcher
  unfolding after_watch
  after_watch-Current known (ok v) woken w u = u
  after_watch-Current known (raised e) woken w u = u

  watches-Current :
      (known : String) (woken : List Wakeup) (w : Watcher)
      → Current w
      → Current (watches r t known woken w).watcher
  unfolding watches
  watches-Current known woken w u =
      after_watch-Current known _ _ _ (watch_from-Current known t.stream w i.streamed u)

  after_sync-Current :
      (x : Result String) (woken : List Wakeup) (w : Watcher)
      → Current w
      → Current (after_sync r t x woken w).watcher
  unfolding after_sync
  after_sync-Current (ok v) woken w u = watches-Current v woken w u
  after_sync-Current (raised e) woken w u = u

  attempt-Current :
      (version : Option String) (w : Watcher) → Current w → Current (attempt r t version w).watcher
  unfolding attempt
  attempt-Current (some v) w u = watches-Current v [] w u
  attempt-Current none w u = after_sync-Current _ _ _ (sync-Current t.listing w u)

  -- The longest wait behind a failure: the maximum and a tenth of it.
  abbrev Ahead : Watcher → Type 0
  Ahead w = w.last_healthy ≤ℤ pos (t.ended + maximum * 1100 / 1000)

  ahead : (w : Watcher) → Current w → Ahead w
  ahead w u = omega (arith, u.shown)

  back_off-Ahead :
      (version : Option String) (woken : List Wakeup) (w : Watcher)
      → Current w
      → Ahead (back_off r config t version woken w).watcher
  unfolding back_off
  back_off-Ahead version woken w u =
      let d = delay-le (label r) t.draw w.backoff u.jitter_eq i.above i.below in
      omega
        (arith, d, u.maximum_eq, +ℤ_parts (pos t.ended) (next_backoff (label r) t.draw w.backoff).0)

  reconnect-Ahead :
      (version : Option String) (woken : List Wakeup) (w : Watcher)
      → Current w
      → Ahead (reconnect r config t version woken w).watcher
  unfolding reconnect
  reconnect-Ahead version woken w u = ahead w u

  failed-Ahead :
      (e : Exception) (version : Option String) (woken : List Wakeup) (w : Watcher)
      → Current w
      → Ahead (failed r config t e version woken w).watcher
  unfolding failed
  failed-Ahead e version woken w u = elim (Bool-cases (has_status 410 e.kind)) [
    | inl a ↦ simp a (reconnect-Ahead none woken w u)
    | inr a ↦ elim (Bool-cases (is_access_lost e.kind)) [
      | inl b ↦
          simp (a, b)
            (back_off-Ahead none woken (record w { synced = false })
              (record { shown = u.shown; jitter_eq = u.jitter_eq; maximum_eq = u.maximum_eq }))
      | inr b ↦ elim (Bool-cases (is_api e.kind)) [
        | inl c ↦ simp (a, b, c) (back_off-Ahead version woken w u)
        | inr c ↦ elim (Bool-cases t.stopping) [
          | inl d ↦ simp (a, b, c, d) (ahead w u)
          | inr d ↦ simp (a, b, c, d) (back_off-Ahead version woken w u)
        ]
      ]
    ]
  ]

  settle-Ahead :
      (e : Option Exception) (version : Option String) (woken : List Wakeup) (w : Watcher)
      → Current w
      → Ahead (settle r config t e version woken w).watcher
  unfolding settle succeeded reconnect
  settle-Ahead none version woken w u = omega arith
  settle-Ahead (some e) version woken w u = failed-Ahead e version woken w u

  -- However an iteration of the loop ends, the time at which the loop last showed life is then no
  -- further ahead of the clock than the longest back-off, a tenth over the maximum, if the clock does
  -- not run backwards, the draw is within the jitter, and that time was not ahead before.
  pub turn-Ahead :
      (version : Option String) (w : Watcher)
      → IsCurrent maximum t.ended w
      → (turn r config t version w).watcher.last_healthy ≤ℤ pos (t.ended + maximum * 1100 / 1000)
  unfolding turn
  turn-Ahead version w u =
      let a = attempt r t version w in
      settle-Ahead a.failure a.version a.woken a.watcher (attempt-Current version w u)

-- The wait that a failure of an attempt leads to.
abbrev pub wait_of : WatchedResource → Turn → Option String → Watcher → ℤ
wait_of r t version w = (next_backoff (label r) t.draw (attempt r t version w).watcher.backoff).0

module _ (r : WatchedResource) (config : WatchConfig) (t : Turn) where
  failed-last_healthy :
      (e : Exception) (version : Option String) (woken : List Wakeup) (w : Watcher)
      → has_status 410 e.kind ≡ false
      → t.stopping ≡ false
      → (failed r config t e version woken w).watcher.last_healthy
        ≡ (pos t.ended +ℤ (next_backoff (label r) t.draw w.backoff).0)
  unfolding failed back_off
  failed-last_healthy e version woken w n s = ground arith

  -- A loop whose attempt failed, not with an expired watch and not at a stop, counts as alive through
  -- the whole wait that follows.
  pub turn-last_healthy :
      (e : Exception) (version : Option String) (w : Watcher)
      → (attempt r t version w).failure ≡ some e
      → has_status 410 e.kind ≡ false
      → t.stopping ≡ false
      → (turn r config t version w).watcher.last_healthy ≡ (pos t.ended +ℤ wait_of r t version w)
  unfolding turn settle
  turn-last_healthy e version w f n s =
      let a = attempt r t version w in
      simp f (failed-last_healthy e a.version a.woken a.watcher n s)
