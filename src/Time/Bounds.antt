-- ===== src/Time/Bounds.antt =====
-- The ranges of src/time.rs: what a successful conversion returns, and when one fails.
use litefan.Prelude.{ℕ, ◌+◌, ◌-◌, ◌*◌, ◌≤◌, ◌<◌, ◌≡◌, ◌↔◌, arith}
use litefan.Error.{ok, err, duration_out_of_range}
use litefan.Api.{Config, Duration}
use litefan.Time.{
  i64_max, u64_mod, as_millis, SystemTime, validate_config, now_ms, add_duration, duration_until_ms,
}

-- What `validate_config` accepts is exactly the conjunction of its six limits.
pub record IsValidConfig (c : Config) : Type 0 where
  pub connections : 1 ≤ c.max_connections
  pub batch : 1 ≤ c.max_batch_size
  pub batch_fits : c.max_batch_size ≤ i64_max
  pub interval : 1 ≤ c.cross_process_poll_interval
  pub window : 1 ≤ as_millis c.idempotency_window
  pub window_fits : as_millis c.idempotency_window ≤ i64_max

validate_config-IsValidConfig : (c : Config) → validate_config c ≡ ok tt → IsValidConfig c
unfolding validate_config
validate_config-IsValidConfig c h = ground arith

IsValidConfig-validate_config : (c : Config) → IsValidConfig c → validate_config c ≡ ok tt
unfolding validate_config
IsValidConfig-validate_config c h = ground arith

-- `validate_config` accepts a configuration if and only if it is within the six limits.
pub validate_config_iff : (c : Config) → (validate_config c ≡ ok tt) ↔ IsValidConfig c
validate_config_iff c = (validate_config-IsValidConfig c, IsValidConfig-validate_config c)

pub now_ms-le : (clock : SystemTime) (n : ℕ) → now_ms clock ≡ ok n → n ≤ i64_max
unfolding now_ms
now_ms-le clock n h = ground arith

-- A time stamp that `add_duration` returns is the exact sum in milliseconds, and fits in an `i64`.
pub add_duration_exact :
    (t : ℕ) (d : Duration) (r : ℕ) → add_duration t d ≡ ok r → (r ≡ t + as_millis d) × (r ≤ i64_max)
unfolding add_duration
add_duration_exact t d r h = ground arith

-- A sum that does not fit in an `i64` is answered DurationOutOfRange.
pub add_duration_overflow :
    (t : ℕ) (d : Duration)
    → i64_max < t + as_millis d
    → add_duration t d ≡ err duration_out_of_range
unfolding add_duration
add_duration_overflow t d h = ground arith

-- If the clock reads `n` and the time stamp `t` is not before it and fits in an `i64`,
-- `duration_until_ms` is the time between them.
pub duration_until_ms_future :
    (t n : ℕ) (clock : SystemTime)
    → now_ms clock ≡ ok n
    → t ≤ i64_max
    → n ≤ t
    → duration_until_ms t clock ≡ ok ((t - n) * 1_000_000)
unfolding duration_until_ms
duration_until_ms_future t n clock e b h = rw e (ground arith)

-- If the clock reads `n` and the time stamp `t` is before it, `duration_until_ms` is not zero: the
-- difference wraps, to 2 ^ 64 milliseconds less the time gone by.
pub duration_until_ms_past :
    (t n : ℕ) (clock : SystemTime)
    → now_ms clock ≡ ok n
    → t < n
    → duration_until_ms t clock ≡ ok ((u64_mod - (n - t)) * 1_000_000)
unfolding duration_until_ms
duration_until_ms_past t n clock e h = rw e (ground arith)
