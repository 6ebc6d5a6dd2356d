-- ===== src/Tests/Times.antt =====
-- src/time.rs at concrete readings.
use litefan.Prelude.{◌+◌, ◌-◌, ◌*◌, ◌≤◌, ◌≡◌, ◌↔◌, refl, arith}
use litefan.Error.{ok, err, duration_out_of_range}
use litefan.Api.{default_config, from_millis}
use litefan.Time.{
  i64_max, u64_mod, as_millis, SystemTime, since_unix_epoch, validate_config, now_ms, add_duration,
  duration_until_ms,
}
use litefan.Time.Bounds.{
  IsValidConfig, validate_config_iff, add_duration_exact, add_duration_overflow,
  duration_until_ms_future, duration_until_ms_past,
}

abbrev clock : SystemTime
clock = since_unix_epoch 100_000_000

clock_reads : now_ms clock ≡ ok 100
unfolding now_ms
clock_reads = refl

sum : add_duration 100 (from_millis 20) ≡ ok 120
unfolding add_duration
sum = refl

validate_config_iff_example :
    (validate_config default_config ≡ ok tt) ↔ IsValidConfig default_config
validate_config_iff_example = validate_config_iff default_config

add_duration_exact_example : (120 ≡ 100 + as_millis (from_millis 20)) × (120 ≤ i64_max)
add_duration_exact_example = add_duration_exact 100 (from_millis 20) 120 sum

add_duration_overflow_example : add_duration i64_max (from_millis 20) ≡ err duration_out_of_range
add_duration_overflow_example = add_duration_overflow i64_max (from_millis 20) (omega arith)

duration_until_ms_future_example : duration_until_ms 130 clock ≡ ok (30 * 1_000_000)
duration_until_ms_future_example =
    duration_until_ms_future 130 100 clock clock_reads (omega arith) (omega arith)

duration_until_ms_past_example : duration_until_ms 99 clock ≡ ok ((u64_mod - 1) * 1_000_000)
duration_until_ms_past_example = duration_until_ms_past 99 100 clock clock_reads (omega arith)
