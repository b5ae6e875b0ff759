-- ===== src/Status/Examples.antt =====
-- The properties of the status, on a small publication.
use cert_publisher.Prelude.{some}
use cert_publisher.Resources.{Condition, StatusPatch}
use cert_publisher.Status.{ready_type, defaults, published, set_status}
use cert_publisher.Status.Outcome.{IsPatch, Reported, set_status_lem}
use cert_publisher.Samples.{world, publication, fresh}

abbrev condition : Condition
condition = record {
  type = ready_type;
  status = "True";
  reason = "Published";
  message = "";
  last_transition_time = "t";
  observed_generation = some 1;
}

set_status_lem_example :
    (patch : StatusPatch) × IsPatch ⦃w = world⦄ publication published "done" defaults patch
    × Reported ⦃w = world⦄ fresh defaults patch
        (set_status ⦃w = world⦄ published "done" defaults fresh)
set_status_lem_example = set_status_lem ⦃w = world⦄ published "done" defaults fresh
