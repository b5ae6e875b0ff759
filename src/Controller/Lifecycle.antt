-- ===== src/Controller/Lifecycle.antt =====
-- src/cert_publisher/controller.py, class Controller: its settings, its start and stop, and the
-- answers to the probes. Times are microseconds, the fraction of the resync jitter is in thousandths.

pub mod Silence
pub mod Drained
use cert_publisher.Prelude.{
  ℕ, zero, suc, ◌+◌, ◌-◌, ◌*◌, String, Bool, true, false, not, ◌&&◌, ◌||◌, Option, none, List, [],
  ◌∷◌, ◌++◌, map, ltb, if◌then◌else◌,
}
use cert_publisher.Prelude.Keys.{Dict, contains}
use cert_publisher.Prelude.Int.{ℤ, pos, ◌-ℤ◌, ltb_ℤ}
use cert_publisher.Prelude.Text.{concat}
use cert_publisher.WorkQueue.{shutdown}
use cert_publisher.WorkQueue as WorkQueue
use cert_publisher.Backoff.{RateLimitingQueue}
use cert_publisher.Backoff as Backoff
use cert_publisher.Controller.Watcher.{WatchedResource, WatchConfig, Watcher}
use cert_publisher.Controller.Watcher as Watcher

pub record ControllerConfig : Type 0 where
  pub namespace : Option String
  pub workers : ℕ
  pub resync : ℕ
  pub resync_jitter : ℕ
  pub backoff_base : ℕ
  pub backoff_max : ℕ
  pub startup_spread : ℕ
  pub watch_timeout : ℕ
  pub watch_min_interval : ℕ
  pub shutdown_timeout : ℕ
  pub reconcile_timeout : ℕ

abbrev pub default_config : ControllerConfig
default_config = record {
  namespace = none;
  workers = 4;
  resync = 1800000000;
  resync_jitter = 200;
  backoff_base = 5000000;
  backoff_max = 900000000;
  startup_spread = 60000000;
  watch_timeout = 300000000;
  watch_min_interval = 1000000;
  shutdown_timeout = 30000000;
  reconcile_timeout = 900000000;
}

-- What the watchers read of it.
abbrev pub watch_config : ControllerConfig → WatchConfig
watch_config config = record {
  backoff_base = config.backoff_base;
  backoff_max = config.backoff_max;
  watch_min_interval = config.watch_min_interval;
}

-- `PUBLICATIONS`, `CERTIFICATES`, `CERTIFICATE_REQUESTS`
abbrev pub watched : List WatchedResource
watched =
    record {
      group = "certpublisher.makerland.xyz";
      version = "v1alpha1";
      plural = "certpublications";
      is_publication = true;
    }
    ∷ record {
      group = "cert-manager.io";
      version = "v1";
      plural = "certificates";
      is_publication = false;
    }
    ∷ record {
      group = "cert-manager.io";
      version = "v1";
      plural = "certificaterequests";
      is_publication = false;
    }
    ∷ []

pub record Controller : Type 0 where
  pub started : Bool
  pub stop_event : Bool
  -- The names of the workers' threads.
  pub threads : List String
  pub watchers : List (WatchedResource × Watcher)
  pub queue : RateLimitingQueue
  pub in_flight : Dict (String × ℕ)

-- `__init__`, at some time of the monotonic clock.
pub create : ControllerConfig → ℕ → Controller
create config now = record {
  started = false;
  stop_event = false;
  threads = [];
  watchers = map (λ r. (r, Watcher.init (watch_config config) now)) watched;
  queue = record {
    queue = WorkQueue.init;
    backoff = Backoff.create config.backoff_base config.backoff_max 100;
  };
  in_flight = [];
}

-- `_Watcher.start`
start_watcher : ℕ → WatchedResource × Watcher → WatchedResource × Watcher
start_watcher now (r, w) = (r, record w { last_healthy = pos now })

-- The names of the workers from a number on. `str` is the format of a number.
worker_names : (ℕ → String) → ℕ → ℕ → List String
worker_names str index zero = []
worker_names str index (suc n) =
    concat ("worker-" ∷ str index ∷ []) ∷ worker_names str (suc index) n

pub start : (ℕ → String) → ControllerConfig → ℕ → Controller → Controller
unfolding start_watcher worker_names
start str config now c = if c.started then c else record c {
  started = true;
  stop_event = false;
  watchers = map (start_watcher now) c.watchers;
  threads = c.threads ++ worker_names str 0 config.workers;
}

-- The workers that are alive when all have been joined or the shutdown has timed out.
still_running : (String → Bool) → List String → List String
still_running is_alive [] = []
still_running is_alive (t ∷ ts) =
    let rest = still_running is_alive ts in if is_alive t then t ∷ rest else rest

-- The keys that they reconcile. The log sorts them.
interrupted : List String → Dict (String × ℕ) → List String
interrupted running [] = []
interrupted running ((worker, (key, since)) ∷ d) =
    let rest = interrupted running d in if contains worker running then key ∷ rest else rest

is_empty : List String → Bool
is_empty [] = true
is_empty (x ∷ xs) = false

-- What the shutdown reports: whether every worker finished, and the keys it cut off.
pub record Drain : Type 0 where
  pub finished : Bool
  pub cut_off : List String

pub stop : (String → Bool) → Controller → Drain × Controller
unfolding still_running interrupted is_empty
stop is_alive c = if not c.started then (record { finished = true; cut_off = [] }, c) else (
  record {
    finished = is_empty (still_running is_alive c.threads);
    cut_off = interrupted (still_running is_alive c.threads) c.in_flight;
  },
  record c {
    started = false;
    stop_event = true;
    threads = [];
    queue = record c.queue { queue = shutdown c.queue.queue };
  },
)

all_synced : List (WatchedResource × Watcher) → Bool
all_synced [] = true
all_synced ((r, w) ∷ ws) = w.synced && all_synced ws

pub ready : Controller → Bool
unfolding all_synced
ready c = c.started && all_synced c.watchers

-- How long a watch may be silent.
abbrev pub threshold : ControllerConfig → ℕ
threshold config = config.watch_timeout * 3 + 60000000

abbrev pub is_silent : ControllerConfig → ℕ → Watcher → Bool
is_silent config now w = ltb_ℤ (pos (threshold config)) (pos now -ℤ w.last_healthy)

any_silent : ControllerConfig → ℕ → List (WatchedResource × Watcher) → Bool
any_silent config now [] = false
any_silent config now ((r, w) ∷ ws) = is_silent config now w || any_silent config now ws

any_wedged : ControllerConfig → ℕ → Dict (String × ℕ) → Bool
any_wedged config now [] = false
any_wedged config now ((worker, (key, since)) ∷ d) =
    ltb config.reconcile_timeout (now - since) || any_wedged config now d

pub healthy : ControllerConfig → ℕ → Controller → Bool
unfolding any_silent any_wedged
healthy config now c =
    if not c.started
    then true
    else if any_silent config now c.watchers
    then false
    else not (any_wedged config now c.in_flight)
