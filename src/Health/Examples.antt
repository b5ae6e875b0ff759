-- ===== src/Health/Examples.antt =====
-- The probes, on a server with one check of its liveness.
use cert_publisher.Prelude.{true, ◌≡◌, ◌↔◌}
use cert_publisher.Effects.{ok}
use cert_publisher.Health.{HealthServer, create, add_liveness_check, do_get}
use cert_publisher.Health.Answers.{Succeeds, do_get-Succeeds}

abbrev server : HealthServer
server = add_liveness_check (ok true) create

do_get-Succeeds_example :
    ((do_get "/healthz/?verbose" server).0 ≡ 200) ↔ Succeeds "/healthz/?verbose" server
do_get-Succeeds_example = do_get-Succeeds "/healthz/?verbose" server
