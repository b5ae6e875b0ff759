-- ===== src/Backoff/Examples.antt =====
-- The properties of the retries, on one key with two failures.
use cert_publisher.Prelude.{◌+◌, ◌*◌, ◌/◌, ◌-◌, ◌≡◌, arith, ◌==◌, if◌then◌else◌}
use cert_publisher.Prelude.Int.{pos, negsuc, ◌≤ℤ◌}
use cert_publisher.Backoff.{failures, next_backoff, plain_delay}
use cert_publisher.Backoff.Growth.{next_backoff_bounds}
use cert_publisher.Backoff.Requeue.{failures-next_backoff}
use cert_publisher.Samples.{backoff}

next_backoff_bounds_example :
    (pos (plain_delay backoff (failures "a" backoff) * (1000 - 100) / 1000)
      ≤ℤ (next_backoff "a" (negsuc 49) backoff).0)
    × ((next_backoff "a" (negsuc 49) backoff).0
        ≤ℤ pos (plain_delay backoff (failures "a" backoff) * (1000 + 100) / 1000))
next_backoff_bounds_example =
    next_backoff_bounds "a" (negsuc 49) backoff (omega arith) (omega arith) (omega arith)

failures-next_backoff_example :
    failures "a" (next_backoff "a" (pos 7) backoff).1
    ≡ (if "a" == "a" then failures "a" backoff + 1 else failures "a" backoff)
failures-next_backoff_example = failures-next_backoff "a" "a" (pos 7) backoff
