-- ===== src/Controller/Watcher/Run/Position.antt =====
-- Where a watch is resumed, and when a watcher counts as synced and as alive.
use cert_publisher.Prelude.{
  ◌∙◌, ℕ, ◌≡◌, refl, String, Bool, true, false, Option, none, some, List, [], ◌∷◌, ◌++◌,
  if◌then◌else◌,
}
use cert_publisher.Prelude.Int.{pos}
use cert_publisher.Effects.{Exception, Result, ok, raised}
use cert_publisher.Controller.Watcher.{
  WatchedResource, WatchConfig, Watcher, Wakeup, Turn, Progress, Stream, event, closes, breaks,
  Listing, sync, watch_from, take_listing, next_event, handle, listed_version, prepend,
}
use cert_publisher.Controller.Watcher.Run.{
  Next, resumes, leaves, Step, Attempt, after_watch, watches, after_sync, attempt, reconnect,
  back_off, succeeded, failed, settle, turn, run_from, run,
}

-- A watch resumes from a version only while the watcher counts as synced.
abbrev pub IsPositioned : Next → Watcher → Type 0
IsPositioned leaves w = Unit
IsPositioned (resumes none) w = Unit
IsPositioned (resumes (some v)) w = w.synced ≡ true

next_event-synced :
    (k : Result (Option String)) (w : Watcher) (rest : Progress)
    → rest.watcher.synced ≡ w.synced
    → (next_event k w rest).watcher.synced ≡ w.synced
unfolding next_event prepend
next_event-synced (ok k) w rest h = h
next_event-synced (raised e) w rest h = refl

watch_from-synced :
    (r : WatchedResource) (version : String) (s : Stream) (w : Watcher)
    → (watch_from r version s w).watcher.synced ≡ w.synced
unfolding watch_from
watch_from-synced r version (closes v) w = refl
watch_from-synced r version (breaks e) w = refl
watch_from-synced r version (event now true v e more) w = refl
watch_from-synced r version (event now false v e more) w =
    let (k, seen) = handle r e w.seen in
    let w' : Watcher = record w { last_healthy = pos now; seen = seen } in
    next_event-synced k w' (watch_from r version more w') (watch_from-synced r version more w')

take_listing-synced :
    (r : WatchedResource) (now : ℕ) (l : Listing) (w : Watcher) (x : Result String) (v : String)
    → (take_listing r now l w x).outcome ≡ ok v
    → (take_listing r now l w x).watcher.synced ≡ true
unfolding take_listing
take_listing-synced r now l w (raised e) v h = cc
take_listing-synced r now l w (ok u) v h = refl

-- A list that succeeds makes the watcher synced.
sync-synced :
    (r : WatchedResource) (now : ℕ) (l : Result Listing) (w : Watcher) (v : String)
    → (sync r now l w).outcome ≡ ok v
    → (sync r now l w).watcher.synced ≡ true
unfolding sync
sync-synced r now (raised e) w v h = cc
sync-synced r now (ok l) w v h = take_listing-synced r now l w (listed_version r l.version) v h

-- The version that is known when an attempt ends is one that the watcher may resume from.
abbrev Knows : Attempt → Type 0
Knows a = IsPositioned (resumes a.version) a.watcher

after_watch-Knows :
    (known : String) (x : Result String) (woken : List Wakeup) (w : Watcher)
    → w.synced ≡ true
    → Knows (after_watch known x woken w)
unfolding after_watch
after_watch-Knows known (ok v) woken w h = h
after_watch-Knows known (raised e) woken w h = h

module _ (r : WatchedResource) (t : Turn) where
  watches-Knows :
      (known : String) (woken : List Wakeup) (w : Watcher)
      → w.synced ≡ true
      → Knows (watches r t known woken w)
  unfolding watches
  watches-Knows known woken w h =
      let p = watch_from r known t.stream w in
      after_watch-Knows known p.outcome (woken ++ p.woken) p.watcher
        (watch_from-synced r known t.stream w ∙ h)

  after_sync-Knows :
      (x : Result String) (woken : List Wakeup) (w : Watcher)
      → ((v : String) → x ≡ ok v → w.synced ≡ true)
      → Knows (after_sync r t x woken w)
  unfolding after_sync
  after_sync-Knows (ok v) woken w h = watches-Knows v woken w (h v refl)
  after_sync-Knows (raised e) woken w h = tt

  attempt-Knows :
      (version : Option String) (w : Watcher)
      → IsPositioned (resumes version) w
      → Knows (attempt r t version w)
  unfolding attempt
  attempt-Knows (some v) w h = watches-Knows v [] w h
  attempt-Knows none w h =
      let p = sync r t.listed t.listing w in
      after_sync-Knows p.outcome p.woken p.watcher (λ v e. sync-synced r t.listed t.listing w v e)

-- Only `next`, and whether the watcher is synced, matter.
IsPositioned-if :
    (b : Bool) (version : Option String) (w : Watcher)
    → IsPositioned (resumes version) w
    → IsPositioned (if b then leaves else resumes version) w
IsPositioned-if true version w h = tt
IsPositioned-if false version w h = h

same_synced :
    (version : Option String) (w u : Watcher)
    → u.synced ≡ w.synced
    → IsPositioned (resumes version) w
    → IsPositioned (resumes version) u
same_synced none w u e h = tt
same_synced (some v) w u e h = e ∙ h

-- The loop may go on as the step says.
record MayGoOn (s : Step) : Type 0 where
  positioned : IsPositioned s.next s.watcher

MayGoOn-if : (b : Bool) (s u : Step) → MayGoOn s → MayGoOn u → MayGoOn (if b then s else u)
MayGoOn-if true s u h k = h
MayGoOn-if false s u h k = k

module _ (r : WatchedResource) (config : WatchConfig) (t : Turn) where
  reconnect-MayGoOn :
      (version : Option String) (woken : List Wakeup) (w : Watcher)
      → IsPositioned (resumes version) w
      → MayGoOn (reconnect r config t version woken w)
  unfolding reconnect
  reconnect-MayGoOn version woken w h = record { positioned = IsPositioned-if _ version w h }

  back_off-MayGoOn :
      (version : Option String) (woken : List Wakeup) (w : Watcher)
      → IsPositioned (resumes version) w
      → MayGoOn (back_off r config t version woken w)
  unfolding back_off
  back_off-MayGoOn version woken w h = record {
    positioned = IsPositioned-if _ version _ (same_synced version w _ refl h);
  }

  settle-MayGoOn :
      (e : Option Exception) (version : Option String) (woken : List Wakeup) (w : Watcher)
      → IsPositioned (resumes version) w
      → MayGoOn (settle r config t e version woken w)
  unfolding settle failed succeeded
  settle-MayGoOn none version woken w h =
      reconnect-MayGoOn version woken _ (same_synced version w _ refl h)
  settle-MayGoOn (some e) version woken w h = MayGoOn-if _ _ _ (reconnect-MayGoOn none woken w tt) (
      MayGoOn-if _ _ _ (back_off-MayGoOn none woken (record w { synced = false }) tt) (
        MayGoOn-if _ _ _ (back_off-MayGoOn version woken w h) (
          MayGoOn-if t.stopping _ _ (record { positioned = tt })
            (back_off-MayGoOn version woken w h))))

  turn-MayGoOn :
      (version : Option String) (w : Watcher)
      → IsPositioned (resumes version) w
      → MayGoOn (turn r config t version w)
  unfolding turn
  turn-MayGoOn version w h =
      let a = attempt r t version w in
      settle-MayGoOn a.failure a.version a.woken a.watcher (attempt-Knows r t version w h)

run_from-MayGoOn :
    (r : WatchedResource) (config : WatchConfig) (ts : List Turn) (n : Next) (w : Watcher)
    → IsPositioned n w
    → MayGoOn (run_from r config ts n w)
unfolding run_from
run_from-MayGoOn r config [] n w h = record { positioned = h }
run_from-MayGoOn r config (t ∷ ts) leaves w h = record { positioned = tt }
run_from-MayGoOn r config (t ∷ ts) (resumes version) w h =
    let u = turn r config t version w in
    record {
      positioned =
          (run_from-MayGoOn r config ts u.next u.watcher
            (turn-MayGoOn r config t version w h).positioned).positioned;
    }

-- The whole loop goes on from a version only while it counts as synced.
pub run-IsPositioned :
    (r : WatchedResource) (config : WatchConfig) (ts : List Turn) (w : Watcher)
    → IsPositioned (run r config ts w).next (run r config ts w).watcher
unfolding run
run-IsPositioned r config ts w = (run_from-MayGoOn r config ts (resumes none) w tt).positioned
