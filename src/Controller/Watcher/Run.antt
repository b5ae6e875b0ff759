-- ===== src/Controller/Watcher/Run.antt =====
-- src/cert_publisher/controller.py, _Watcher._run: what the loop does with the end of a watch.
pub mod Position
pub mod Resuming
pub mod Clock
use cert_publisher.Prelude.{
  ℕ, ◌+◌, String, Bool, true, false, not, ◌&&◌, ◌||◌, Option, none, some, List, [], ◌∷◌, ◌++◌,
  nat_eq, ltb, if◌then◌else◌,
}
use cert_publisher.Prelude.Int.{ℤ, pos, ◌+ℤ◌}
use cert_publisher.Effects.{Kind, api_exception, Exception, Result, ok, raised}
use cert_publisher.Kube.{has_status}
use cert_publisher.Backoff.{next_backoff, forget}
use cert_publisher.Controller.Watcher.{
  WatchedResource, WatchConfig, Watcher, Wakeup, Turn, Progress, label, sync, watch_from, prepend,
}

-- How an iteration ends: the loop goes on, from a version or with a list, or it is left.
pub data Next : Type 0 where
  resumes : Option String → Next
  leaves : Next

pub record Step : Type 0 where
  pub next : Next
  pub woken : List Wakeup
  pub watcher : Watcher

-- `try: if resource_version is None: …; resource_version = self._watch_from(…)`: the version that is
-- known when it ends, the exception if there was one.
pub record Attempt : Type 0 where
  pub version : Option String
  pub failure : Option Exception
  pub woken : List Wakeup
  pub watcher : Watcher

after_watch : String → Result String → List Wakeup → Watcher → Attempt
after_watch known (ok v) woken w = record {
  version = some v;
  failure = none;
  woken = woken;
  watcher = w;
}
after_watch known (raised e) woken w = record {
  version = some known;
  failure = some e;
  woken = woken;
  watcher = w;
}

watches : WatchedResource → Turn → String → List Wakeup → Watcher → Attempt
unfolding after_watch
watches r t known woken w =
    let p = watch_from r known t.stream w in
    after_watch known p.outcome (woken ++ p.woken) p.watcher

unfoldable pub after_sync : WatchedResource → Turn → Result String → List Wakeup → Watcher → Attempt
unfolding watches
after_sync r t (ok v) woken w = watches r t v woken w
after_sync r t (raised e) woken w = record {
  version = none;
  failure = some e;
  woken = woken;
  watcher = w;
}

unfoldable pub attempt : WatchedResource → Turn → Option String → Watcher → Attempt
unfolding after_sync
attempt r t (some v) w = watches r t v [] w
attempt r t none w =
    let p = sync r t.listed t.listing w in after_sync r t p.outcome p.woken p.watcher

-- `_ACCESS_LOST`
pub is_access_lost : Kind → Bool
is_access_lost (api_exception status) =
    nat_eq status 401 || (nat_eq status 403 || nat_eq status 404)
is_access_lost _ = false

is_api : Kind → Bool
is_api (api_exception status) = true
is_api _ = false

module _ (r : WatchedResource) (config : WatchConfig) (t : Turn) where
  -- `_pause_before_reconnect`
  pub pauses_and_stops : Bool
  pauses_and_stops = ltb t.ended (t.started + config.watch_min_interval) && t.stopped

  -- Going on without a back-off.
  reconnect : Option String → List Wakeup → Watcher → Step
  unfolding pauses_and_stops
  reconnect version woken w = record {
    next = if pauses_and_stops then leaves else resumes version;
    woken = woken;
    watcher = w;
  }

  -- The wait behind a failure.
  back_off : Option String → List Wakeup → Watcher → Step
  back_off version woken w =
      let (delay, b) = next_backoff (label r) t.draw w.backoff in
      record {
        next = if t.stopped then leaves else resumes version;
        woken = woken;
        watcher = record w { last_healthy = pos t.ended +ℤ delay; backoff = b };
      }

  succeeded : Option String → List Wakeup → Watcher → Step
  unfolding reconnect
  succeeded version woken w =
      reconnect version woken
        (record w { last_healthy = pos t.ended; backoff = forget (label r) w.backoff })

  failed : Exception → Option String → List Wakeup → Watcher → Step
  unfolding reconnect back_off is_access_lost is_api
  failed e version woken w =
      if has_status 410 e.kind
      then reconnect none woken w
      else if is_access_lost e.kind
      then back_off none woken (record w { synced = false })
      else if is_api e.kind
      then back_off version woken w
      else if t.stopping
      then record { next = leaves; woken = woken; watcher = w }
      else back_off version woken w

  settle : Option Exception → Option String → List Wakeup → Watcher → Step
  unfolding succeeded failed
  settle none version woken w = succeeded version woken w
  settle (some e) version woken w = failed e version woken w

  -- One iteration of the loop.
  pub turn : Option String → Watcher → Step
  unfolding settle
  turn version w = let a = attempt r t version w in settle a.failure a.version a.woken a.watcher

-- The loop, over the iterations of which the stop event was not set at the head.
pub run_from : WatchedResource → WatchConfig → List Turn → Next → Watcher → Step
unfolding turn
run_from r config [] n w = record { next = n; woken = []; watcher = w }
run_from r config (t ∷ ts) leaves w = record { next = leaves; woken = []; watcher = w }
run_from r config (t ∷ ts) (resumes version) w =
    let s = turn r config t version w in
    let rest = run_from r config ts s.next s.watcher in
    record { next = rest.next; woken = s.woken ++ rest.woken; watcher = rest.watcher }

-- `_run`, which begins with a list.
pub run : WatchedResource → WatchConfig → List Turn → Watcher → Step
unfolding run_from
run r config ts w = run_from r config ts (resumes none) w
