-- ===== src/Utils/Duration/Examples.antt =====
-- Durations that are read, and ones that are not.
use cert_publisher.Prelude.{◌≡◌, refl}
use cert_publisher.Effects.{ok, raised, value_error, other_error}
use cert_publisher.Utils.Duration.{parse_go_duration}

parse_go_duration_day : parse_go_duration " 1h30m0.5s " ≡ ok 5400500000
unfolding parse_go_duration
parse_go_duration_day = refl

parse_go_duration_bare :
    parse_go_duration "15" ≡ raised (record { kind = value_error; text = "not a Go duration" })
unfolding parse_go_duration
parse_go_duration_bare = refl

parse_go_duration_long :
    parse_go_duration "24000000000h"
    ≡ raised (record { kind = other_error; text = "must have magnitude <= 999999999" })
unfolding parse_go_duration
parse_go_duration_long = refl
