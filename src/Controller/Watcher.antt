-- ===== src/Controller/Watcher.antt =====
-- src/cert_publisher/controller.py, class _Watcher: one loop that lists and watches a resource. Times
-- are microseconds of the monotonic clock. What happens outside in one iteration of the loop (the
-- answers of the API server, the readings of the clock, the stop event) is a value, a `Turn`.
pub mod Run
pub mod Seen
use cert_publisher.Prelude.{
  ℕ, ◌+◌, ◌*◌, String, Bool, true, false, not, ◌&&◌, ◌||◌, Option, none, some, List, [], ◌∷◌, ◌++◌,
  ◌==◌, nat_eq, ltb, leb, if◌then◌else◌,
}
use cert_publisher.Prelude.Keys.{Dict, get, put, remove}
use cert_publisher.Prelude.Int.{ℤ, pos, ◌+ℤ◌}
use cert_publisher.Prelude.Text.{concat}
use cert_publisher.Effects.{Kind, api_exception, runtime_error, Exception, Result, ok, raised}
use cert_publisher.Backoff.{ExponentialBackoff, next_backoff, forget}
use cert_publisher.Backoff as Backoff
use cert_publisher.Controller.Keys.{
  WatchedObject, is_missing, publication_key, owning_publication_key,
}

pub record WatchedResource : Type 0 where
  pub group : String
  pub version : String
  pub plural : String
  pub is_publication : Bool

pub label : WatchedResource → String
label r = concat (r.plural ∷ "." ∷ r.group ∷ [])

-- The settings that the watchers read.
pub record WatchConfig : Type 0 where
  pub backoff_base : ℕ
  pub backoff_max : ℕ
  pub watch_min_interval : ℕ

-- `_seen_state`: the generation, and whether there is a time of signing.
abbrev pub SeenState : Type 0
SeenState = Option ℕ × Bool

pub seen_state : WatchedObject → SeenState
seen_state o = (o.generation, not (is_missing o.last_signing_time))

-- An event of a watch: its type, and its object if that is a JSON object.
pub record WatchEvent : Type 0 where
  pub type : Option String
  pub object : Option WatchedObject

-- `generation != generation`
pub generations_differ : Option ℕ → Option ℕ → Bool
generations_differ none none = false
generations_differ none (some n) = true
generations_differ (some m) none = true
generations_differ (some m) (some n) = not (nat_eq m n)

-- The test at the end of `_spec_changed`.
pub differs : Option SeenState → SeenState → Bool
unfolding generations_differ
differs none current = true
differs (some previous) (none, signing) = true
differs (some previous) (some generation, signing) =
    generations_differ (some generation) previous.0 || (previous.1 && not signing)

pub is_deletion : Option String → Bool
is_deletion none = false
is_deletion (some type) = type == "DELETED"

-- What the loop keeps between two events.
pub record Watcher : Type 0 where
  pub seen : Dict SeenState
  pub synced : Bool
  pub last_healthy : ℤ
  pub backoff : ExponentialBackoff

abbrev pub init : WatchConfig → ℕ → Watcher
init config now = record {
  seen = [];
  synced = false;
  last_healthy = pos now;
  backoff = Backoff.create config.backoff_base config.backoff_max 100;
}

pub spec_changed : Option String → String → WatchedObject → Dict SeenState → Bool × Dict SeenState
unfolding is_deletion differs seen_state
spec_changed type key o seen =
    if is_deletion type
    then (true, remove key seen)
    else (differs (get key seen) (seen_state o), put key (seen_state o) seen)

-- A publication's event that is let through, or not.
filtered : String → Bool × Dict SeenState → Option String × Dict SeenState
filtered key (true, seen) = (some key, seen)
filtered key (false, seen) = (none, seen)

handle_key :
    Option String → WatchedObject → Dict SeenState → Option String → Option String × Dict SeenState
unfolding filtered spec_changed
handle_key type o seen none = (none, seen)
handle_key type o seen (some key) = filtered key (spec_changed type key o seen)

-- `_handle`: the key that goes to the queue, if one does.
handle_object :
    Bool → Option String → WatchedObject → Dict SeenState → Result (Option String) × Dict SeenState
unfolding handle_key
handle_object true type o seen =
    let (k, seen') = handle_key type o seen (publication_key o) in (ok k, seen')
handle_object false type o seen = (owning_publication_key o, seen)

pub handle : WatchedResource → WatchEvent → Dict SeenState → Result (Option String) × Dict SeenState
unfolding handle_object
handle r e seen = elim e.object [
  | none ↦ (ok none, seen)
  | some o ↦ handle_object r.is_publication e.type o seen
]

-- What goes to the queue: a key to add at once, or one of a list, to add within the startup window.
pub data Wakeup : Type 0 where
  adds seeds : String → Wakeup

-- The answer to a list: the objects, and the resource version.
pub record Listing : Type 0 where
  pub items : List WatchedObject
  pub version : Option String

-- What a watch delivers: events, each with the clock, whether the stop event is set, and the version
-- that the client keeps; at the end the server closes the watch, or it fails.
pub data Stream : Type 0 where
  event : ℕ → Bool → Option String → WatchEvent → Stream → Stream
  closes : Option String → Stream
  breaks : Exception → Stream

-- One iteration of the loop, as far as it depends on the outside.
pub record Turn : Type 0 where
  pub started : ℕ
  pub listing : Result Listing
  pub listed : ℕ
  pub stream : Stream
  pub ended : ℕ
  -- Whether the stop event is set after a failure, and whether it comes while the loop pauses.
  pub stopping : Bool
  pub stopped : Bool
  pub draw : ℤ

-- `value or default`, for a text.
pub version_or : Option String → String → String
version_or none default = default
version_or (some v) default = if v == "" then default else v

pub wake : Option String → List Wakeup → List Wakeup
wake none later = later
wake (some key) later = adds key ∷ later

-- `if key: self._seen[key] = …; self._on_sync_key(key)`
remember : Option String → SeenState → Dict SeenState → Dict SeenState
remember none state seen = seen
remember (some key) state seen = put key state seen

unfoldable pub wake_listed : Option String → List Wakeup → List Wakeup
wake_listed none later = later
wake_listed (some key) later = seeds key ∷ later

-- The loop of `_sync` over the items of a list of publications.
unfoldable pub seed : List WatchedObject → Dict SeenState → List Wakeup × Dict SeenState
unfolding seen_state remember wake_listed
seed [] seen = ([], seen)
seed (o ∷ os) seen =
    let (woken, after) = seed os (remember (publication_key o) (seen_state o) seen) in
    (wake_listed (publication_key o) woken, after)

-- The version that a list carries.
unfoldable pub listed_version : WatchedResource → Option String → Result String
unfolding label
listed_version r none = raised (record {
  kind = runtime_error;
  text = concat (label r ∷ " list carried no resourceVersion" ∷ []);
})
listed_version r (some v) =
    if v == ""
    then raised (record {
      kind = runtime_error;
      text = concat (label r ∷ " list carried no resourceVersion" ∷ []);
    })
    else ok v

-- What a list or a watch comes to: the version or the exception, what goes to the queue, and the
-- watcher.
pub record Progress : Type 0 where
  pub outcome : Result String
  pub woken : List Wakeup
  pub watcher : Watcher

unfoldable pub take_listing : WatchedResource → ℕ → Listing → Watcher → Result String → Progress
unfolding seed
take_listing r now l w (raised e) = record { outcome = raised e; woken = []; watcher = w }
take_listing r now l w (ok v) =
    let (woken, seen) = (if r.is_publication then seed l.items [] else ([], w.seen)) in
    record {
      outcome = ok v;
      woken = woken;
      watcher = record w { seen = seen; last_healthy = pos now; synced = true };
    }

unfoldable pub sync : WatchedResource → ℕ → Result Listing → Watcher → Progress
unfolding take_listing listed_version
sync r now (raised e) w = record { outcome = raised e; woken = []; watcher = w }
sync r now (ok l) w = take_listing r now l w (listed_version r l.version)

-- `_watch_from`: the events, to the end of the watch.
pub prepend : List Wakeup → Progress → Progress
prepend woken p = record p { woken = woken ++ p.woken }

-- After an event is handled.
next_event : Result (Option String) → Watcher → Progress → Progress
unfolding prepend wake
next_event (ok k) w rest = prepend (wake k []) rest
next_event (raised e) w rest = record { outcome = raised e; woken = []; watcher = w }

pub watch_from : WatchedResource → String → Stream → Watcher → Progress
unfolding handle next_event version_or
watch_from r version (closes v) w = record {
  outcome = ok (version_or v version);
  woken = [];
  watcher = w;
}
watch_from r version (breaks e) w = record { outcome = raised e; woken = []; watcher = w }
watch_from r version (event now stop v e more) w =
    let (k, seen) = handle r e w.seen in
    let w' : Watcher = record w { last_healthy = pos now; seen = seen } in
    let rest = watch_from r version more w' in
    if stop
    then record {
      outcome = ok (version_or v version);
      woken = [];
      watcher = record w { last_healthy = pos now };
    }
    else next_event k w' rest
