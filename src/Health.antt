-- ===== src/Health.antt =====
-- src/cert_publisher/health.py, class HealthServer: its checks, and the answer to a GET request. A
-- check is a call of another component, by what it returns or raises.
pub mod Answers
mod Examples
use Prim.Native.String
use cert_publisher.Prelude.{
  ℕ, String, Bool, true, false, not, ◌&&◌, List, [], ◌∷◌, ◌++◌, ◌==◌, if◌then◌else◌,
}
use cert_publisher.Effects.{Result, ok, raised}

pub record HealthServer : Type 0 where
  pub live_checks : List (Result Bool)
  pub ready_checks : List (Result Bool)

abbrev pub create : HealthServer
create = record { live_checks = []; ready_checks = [] }

unfoldable pub add_liveness_check : Result Bool → HealthServer → HealthServer
add_liveness_check c s = record s { live_checks = s.live_checks ++ c ∷ [] }

unfoldable pub add_readiness_check : Result Bool → HealthServer → HealthServer
add_readiness_check c s = record s { ready_checks = s.ready_checks ++ c ∷ [] }

-- A check that raises fails.
pub passes : List (Result Bool) → Bool
passes [] = true
passes (ok true ∷ cs) = passes cs
passes (ok false ∷ cs) = false
passes (raised e ∷ cs) = false

pub alive : HealthServer → Bool
unfolding passes
alive s = passes s.live_checks

is_empty : List (Result Bool) → Bool
is_empty [] = true
is_empty (c ∷ cs) = false

pub ready : HealthServer → Bool
unfolding passes is_empty
ready s = not (is_empty s.ready_checks) && passes s.ready_checks

-- `path.split("?", 1)[0]`
before_query : String → String
before_query String.[] = String.[]
before_query (String.◌∷◌ c s) =
    let rest = before_query s in
    if String.◌∷◌ c String.[] == "?" then String.[] else String.◌∷◌ c rest

-- `path.rstrip("/")`
strip_slashes : String → String
strip_slashes String.[] = String.[]
strip_slashes (String.◌∷◌ c s) =
    let rest = strip_slashes s in
    if rest == "" && String.◌∷◌ c String.[] == "/" then String.[] else String.◌∷◌ c rest

or_root : String → String
or_root path = if path == "" then "/" else path

-- The path that is looked up.
pub route : String → String
unfolding before_query strip_slashes or_root
route path = or_root (strip_slashes (before_query path))

respond : Bool → String → ℕ × String
respond true otherwise = (200, "ok\n")
respond false otherwise = (503, otherwise)

-- `do_GET`: the status code and the body.
pub do_get : String → HealthServer → ℕ × String
unfolding respond
do_get path s =
    if route path == "/healthz"
    then respond (alive s) "unhealthy\n"
    else if route path == "/readyz"
    then respond (ready s) "starting\n"
    else (404, "not found\n")
