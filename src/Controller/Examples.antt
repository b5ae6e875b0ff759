-- ===== src/Controller/Examples.antt =====
-- The properties of the controller, on one publication.
use cert_publisher.Prelude.{
  ℕ, ◌+◌, ◌≡◌, ◌≢◌, ◌↔◌, ◌⊎◌, refl, inl, inr, String, true, false, none, some, List, [], ◌∷◌, arith,
}
use cert_publisher.Prelude.Keys.{get, contains}
use cert_publisher.Prelude.Int.{pos}
use cert_publisher.Resources.{StatusPatch, unset}
use cert_publisher.Effects.{api_exception, os_error, Exception, ok, raised, World, State}
use cert_publisher.WorkQueue.Owed.{IsOwed}
use cert_publisher.Backoff.{queue_failures}
use cert_publisher.Status.Outcome.{IsPatch, IsStored, IsDropped}
use cert_publisher.Status as Status
use cert_publisher.Samples.{world, publication, fresh, in_flight, backoff}
use cert_publisher.Certmanager.{owner_reference}
use cert_publisher.Controller.Keys.{
  WatchedObject, before_slash, after_slash, publication_key, owning_publication_key,
}
use cert_publisher.Controller.Keys.Owners.{
  has_slash, served, BelongsTo, owning_publication_key-BelongsTo,
}
use cert_publisher.Controller.Watcher.{
  WatchedResource, WatchConfig, Watcher, WatchEvent, Turn, event, closes, breaks, Listing, handle,
  init, sync, listed_version, label,
}
use cert_publisher.Controller.Watcher.Seen.{
  Sighting, Tracks, Wakes, last_state, observed, handle-Wakes, handle-merge,
}
use cert_publisher.Controller.Watcher.Run.{run, turn}
use cert_publisher.Controller.Watcher.Run.Resuming.{Resumes, run-Resumes}
use cert_publisher.Controller.Wakeups.{deliver_all, sync-IsOwed}
use cert_publisher.Controller.Worker.{Surroundings, Control, work, fail, failure_message, back_off}
use cert_publisher.Controller.Worker.Owed.{work-IsOwed}
use cert_publisher.Controller.Worker.Failure.{retry_options, fail_lem}
use cert_publisher.Controller.Lifecycle.{default_config, watch_config, Controller, create, healthy}
use cert_publisher.Controller.Lifecycle.Silence.{healthy-hang}

abbrev publications : WatchedResource
publications = record {
  group = "certpublisher.makerland.xyz";
  version = "v1alpha1";
  plural = "certpublications";
  is_publication = true;
}

-- A Certificate that the operator created.
abbrev owned : WatchedObject
owned = record (observed publication) { owners = served (owner_reference publication) ∷ [] }

owned-BelongsTo : BelongsTo publication owned
unfolding observed
owned-BelongsTo = record { namespace_eq = refl; others = []; owners_eq = refl }

owning_publication_key-BelongsTo_example :
    (key : String) × (owning_publication_key owned ≡ ok (some key))
    × (before_slash key ≡ "ns")
    × (after_slash key ≡ "host")
unfolding has_slash
owning_publication_key-BelongsTo_example =
    owning_publication_key-BelongsTo publication owned owned-BelongsTo refl refl

unseen-Tracks : Tracks [] []
unfolding get last_state
unseen-Tracks = record { tracked = λ key. refl }

abbrev added : WatchEvent
added = record { type = some "ADDED"; object = some (observed publication) }

abbrev sighting : Sighting
sighting = record { type = some "ADDED"; key = "ns/host"; object = observed publication }

handle-Wakes_example :
    (((handle publications added []).0 ≡ ok (some "ns/host"))
      ↔ Wakes (some "ADDED") "ns/host" (observed publication) [])
    × Tracks (sighting ∷ []) (handle publications added []).1
unfolding publication_key observed cert_publisher.Prelude.Text.concat
handle-Wakes_example =
    handle-Wakes publications added (observed publication) "ns/host" [] [] refl refl refl
      unseen-Tracks

sighted-Tracks : Tracks (sighting ∷ []) (handle publications added []).1
unfolding publication_key observed cert_publisher.Prelude.Text.concat
sighted-Tracks =
    (handle-Wakes publications added (observed publication) "ns/host" [] [] refl refl refl
      unseen-Tracks).1

-- A patch that reports an error.
abbrev patch : StatusPatch
patch = record {
  phase = "Error";
  message = "unreachable";
  reason = "ReconcileError";
  last_reconcile_time = "t";
  observed_generation = some 1;
  conditions = [];
  published_fingerprint = none;
  last_published_time = none;
  pending_request_name = unset;
  last_signing_time = none;
  next_retry_time = none;
}

handle-merge_example :
    (handle publications
      (record {
        type = some "MODIFIED";
        object =
            some (observed (record publication { status = Status.merge patch publication.status }));
      })
      (handle publications added []).1).0
    ≡ ok none
unfolding publication_key observed cert_publisher.Prelude.Text.concat last_state
handle-merge_example =
    handle-merge publications (some "MODIFIED") publication patch "ns/host" (sighting ∷ [])
      (handle publications added []).1 refl refl refl sighted-Tracks refl (λ e. cc) tt

abbrev idle_turn : Turn
idle_turn = record {
  started = 0;
  listing = ok (record { items = observed publication ∷ []; version = some "7" });
  listed = 1;
  stream = event 2 false none added (closes (some "8"));
  ended = 3;
  stopping = false;
  stopped = false;
  draw = pos 0;
}

abbrev config : WatchConfig
config = watch_config default_config

run-Resumes_example :
    Resumes publications idle_turn
      (run publications config (idle_turn ∷ []) (init config 0))
      (run publications config (idle_turn ∷ idle_turn ∷ []) (init config 0))
run-Resumes_example = run-Resumes publications config (idle_turn ∷ []) idle_turn (init config 0)

sync-IsOwed_example : IsOwed "ns/host" (
    deliver_all
      (record { scatter = λ n. pos 5; monotonic = λ n. 1 })
      0
      (sync publications 1
        (ok (record { items = observed publication ∷ []; version = some "7" }))
        (init config 0)).woken
      in_flight)
unfolding sync listed_version cert_publisher.Controller.Watcher.take_listing publication_key
    observed cert_publisher.Prelude.Text.concat
sync-IsOwed_example =
    sync-IsOwed publications 1 (record { items = observed publication ∷ []; version = some "7" })
      (init config 0) "7" "ns/host" (record { scatter = λ n. pos 5; monotonic = λ n. 1 }) 0
      in_flight refl refl (inl refl)

-- The other threads do nothing.
abbrev alone : Surroundings
alone = record {
  moves = λ n. [];
  monotonic = λ n. n;
  draw = λ n. pos 0;
  scatter = λ n. pos 0;
  str = λ n. "1";
  fixed = λ d a b. "5";
}

-- A worker that holds the publication's key.
abbrev holding : Control
holding = record {
  queue = record { queue = record in_flight { processing = "ns/host" ∷ [] }; backoff = backoff };
  operations = 0;
  in_flight = [];
  history = [];
  readings = 0;
}

abbrev serving : World
serving = record world { read_publication = λ h n m. ok publication }

work-IsOwed_example :
    IsOwed "ns/host" (work alone ⦃w = serving⦄ 1800 "worker-0" "ns/host" holding).queue.queue
unfolding cert_publisher.Kube.read_publication contains
work-IsOwed_example =
    work-IsOwed alone "ns/host" (λ n. tt) ⦃w = serving⦄ 1800 "worker-0" holding (λ e. cc)
      (record { in_flight = refl; unqueued = refl })

abbrev unreachable : Exception
unreachable = record { kind = os_error; text = "unreachable" }

fail_lem_example :
    (queue_failures "ns/host" (fail alone ⦃w = world⦄ "ns/host" unreachable fresh holding).queue
      ≡ queue_failures "ns/host" holding.queue + 1)
    × (p : StatusPatch) × (t : State) × IsPatch ⦃w = world⦄ publication Status.error
        (failure_message alone unreachable
          (queue_failures "ns/host" holding.queue + 1)
          (back_off alone "ns/host" holding).0)
        (retry_options alone "ns/host"
          (λ n. tt)
          ⦃w = world⦄
          (back_off alone "ns/host" holding).0
          fresh)
        p
    × (IsStored ⦃w = world⦄ fresh p t ⊎ IsDropped ⦃w = world⦄ fresh p t)
    × ((fail alone ⦃w = world⦄ "ns/host" unreachable fresh holding).history ≡ t.history)
fail_lem_example = fail_lem alone "ns/host" (λ n. tt) ⦃w = world⦄ unreachable fresh holding

-- An iteration in which the list is refused.
abbrev refused : Turn
refused = record idle_turn {
  listing = raised (record { kind = api_exception 403; text = "Forbidden" });
}

abbrev watcher_after : Watcher
watcher_after = (turn publications config refused none (init config 0)).watcher

abbrev running : Controller
running = record (create default_config 0) {
  started = true;
  watchers = (publications, watcher_after) ∷ [];
}

healthy-hang_example : healthy default_config 3000000000 running ≡ false
healthy-hang_example =
    healthy-hang default_config 3000000000 publications none (init config 0) refused running
      (record {
        listed = omega arith;
        streamed = (omega arith, tt);
        above = omega arith;
        below = omega arith;
      })
      (record { shown = omega arith; jitter_eq = refl; maximum_eq = refl }) refl (inl refl)
      (omega arith)
