-- ===== src/Main.antt =====
-- src/cert_publisher/main.py: the settings from the environment, the life of the process and its exit
-- code. Times are microseconds and the jitter is in thousandths, as in Controller.Lifecycle. `float` on the text of a variable is
-- an argument, on values that are not negative.
pub mod Exit
mod Examples
use cert_publisher.Prelude.{
  ℕ, ◌*◌, String, Bool, true, false, Option, none, some, List, ◌==◌, if◌then◌else◌,
}
use cert_publisher.Prelude.Int.{ℤ, pos, pos_part}
use cert_publisher.Effects.{Result}
use cert_publisher.Retry.{at_least_one}
use cert_publisher.Provisioners.Trace.{Trace, pure, ask, finally, ◌>>=◌, ◌>>◌}
use cert_publisher.Controller.Lifecycle.{ControllerConfig, default_config}

pub record OperatorConfig : Type 0 where
  pub controller : ControllerConfig
  pub health_port : ℤ

-- The environment, and how the program reads a text: as seconds in microseconds, in thousandths, and as a whole number.
pub record Environment : Type 0 where
  pub get : String → Option String
  pub micros : String → Option ℕ
  pub thousandths : String → Option ℕ
  pub int : String → Option ℤ

-- `_env_float` and `_env_int`: what is not set or cannot be read counts as the default.
read_or : {A : Type 0} → (String → Option A) → A → Option String → A
read_or read default none = default
read_or read default (some text) = elim (read text) [ none ↦ default | some a ↦ a ]

-- `os.environ.get(name) or None`
truthy : Option String → Option String
truthy none = none
truthy (some s) = if s == "" then none else some s

module _ (e : Environment) where
  env_float : String → ℕ → ℕ
  unfolding read_or
  env_float name default = read_or e.micros default (e.get name)

  env_int : String → ℤ → ℤ
  unfolding read_or
  env_int name default = read_or e.int default (e.get name)

  -- `OperatorConfig.from_env`
  pub from_env : OperatorConfig
  unfolding env_float env_int truthy read_or
  from_env = record {
    controller = record {
      namespace = truthy (e.get "WATCH_NAMESPACE");
      workers = at_least_one (env_int "WORKER_COUNT" (pos 4));
      resync = env_float "RESYNC_INTERVAL" 1800000000;
      resync_jitter = read_or e.thousandths 200 (e.get "RESYNC_JITTER");
      backoff_base = env_float "BACKOFF_BASE" 5000000;
      backoff_max = env_float "BACKOFF_MAX" 900000000;
      startup_spread = env_float "STARTUP_SPREAD" 60000000;
      watch_timeout = pos_part (env_int "WATCH_TIMEOUT" (pos 300)) * 1000000;
      watch_min_interval = default_config.watch_min_interval;
      shutdown_timeout = env_float "SHUTDOWN_TIMEOUT" 30000000;
      reconcile_timeout = env_float "RECONCILE_TIMEOUT" 900000000;
    };
    health_port = env_int "HEALTH_PORT" (pos 8080);
  }

unfoldable pub shutdown_code : Bool → ℕ
shutdown_code true = 0
shutdown_code false = 1

-- What `main` does with its parts.
pub data Step : Type 0 where
  starts_health : Result (Unit {0}) → Step
  starts_controller : Result (Unit {0}) → Step
  -- Until SIGTERM or SIGINT.
  waits : Result (Unit {0}) → Step
  stops_controller : Result Bool → Step
  stops_health : Step

-- How the parts answer. The controller's answer to its stop is whether it drained.
pub record Parts : Type 0 where
  pub start_health : List Step → Result (Unit {0})
  pub start_controller : List Step → Result (Unit {0})
  pub wait : List Step → Result (Unit {0})
  pub stop_controller : List Step → Result Bool

module _ ⦃p : Parts⦄ where
  serve : Trace Step ℕ
  unfolding shutdown_code
  serve = do
    ask p.start_controller starts_controller
    ask p.wait waits
    drained ← ask p.stop_controller stops_controller
    pure (shutdown_code drained)

  -- The exit code of the process.
  unfoldable pub main : Trace Step ℕ
  unfolding serve
  main = do ask p.start_health starts_health; finally stops_health serve
