-- ===== src/Retry/Examples.antt =====
-- The property of the retries, on a call that fails twice and then answers.
use cert_publisher.Prelude.{ℕ, zero, suc, ◌-◌, String, ◌≡◌, refl}
use cert_publisher.Prelude.Int.{pos}
use cert_publisher.Effects.{os_error, Exception, Result, ok, raised}
use cert_publisher.Retry.{default_retryable, with_retries, at_least_one}
use cert_publisher.Retry.Attempts.{IsRun, with_retries-IsRun}

abbrev refused : Exception
refused = record { kind = os_error; text = "connection refused" }

abbrev flaky : ℕ → Result ℕ
flaky zero = raised refused
flaky (suc zero) = raised refused
flaky (suc (suc n)) = ok 7

abbrev print : ℕ → String
print n = "3"

with_retries_third : (with_retries flaky default_retryable print "login" 2 (pos 3)).outcome ≡ ok 7
unfolding with_retries default_retryable at_least_one cert_publisher.Retry.try_from
    cert_publisher.Retry.final cert_publisher.Retry.earlier
with_retries_third = refl

with_retries-IsRun_example :
    IsRun flaky default_retryable print "login" 2
      (at_least_one (pos 3))
      (at_least_one (pos 3) - 1)
      0
      (with_retries flaky default_retryable print "login" 2 (pos 3))
with_retries-IsRun_example = with_retries-IsRun flaky default_retryable print "login" 2 (pos 3)
