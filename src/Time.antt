-- ===== src/Time.antt =====
-- src/time.rs: configuration limits and durable time. A clock reading is the number of nanoseconds
-- since the Unix epoch, or a time before it.
pub mod Bounds
use litefan.Prelude.{ℕ, ◌+◌, ◌-◌, ◌*◌, ◌/◌, ◌%◌, ◌^◌, Bool, ltb, leb, ◌==◌, if◌then◌else◌}
use litefan.Error.{
  Result, ok, err, invalid_config, clock_before_unix_epoch, duration_out_of_range, ◌>>=◌, ◌>>◌,
}
use litefan.Api.{Config, Duration, from_millis}

abbrev pub i64_max : ℕ
i64_max = 9_223_372_036_854_775_807

abbrev pub u64_mod : ℕ
u64_mod = 18_446_744_073_709_551_616

-- `i64::try_from` of an unsigned number
abbrev pub fits_i64 : ℕ → Bool
fits_i64 n = leb n i64_max

abbrev pub as_millis : Duration → ℕ
as_millis d = d / 1_000_000

pub data SystemTime : Type 0 where
  before_unix_epoch : SystemTime
  since_unix_epoch : Duration → SystemTime

unfoldable pub validate_config : Config → Result (Unit {0})
validate_config config =
    if config.max_connections == 0
    then err (invalid_config "max_connections must be greater than zero")
    else if config.max_batch_size == 0
    then err (invalid_config "max_batch_size must be greater than zero")
    else if ltb i64_max config.max_batch_size
    then err (invalid_config "max_batch_size must fit in SQLite")
    else if config.cross_process_poll_interval == 0
    then err (invalid_config "cross_process_poll_interval must be greater than zero")
    else if as_millis config.idempotency_window == 0
    then err (invalid_config "idempotency_window must be at least one millisecond")
    else if ltb i64_max (as_millis config.idempotency_window)
    then err (invalid_config "idempotency_window must fit in SQLite milliseconds")
    else ok tt

-- `i64::try_from(millis)`
unfoldable pub i64_of_millis : ℕ → Result ℕ
i64_of_millis n = if fits_i64 n then ok n else err duration_out_of_range

unfoldable pub now_ms : SystemTime → Result ℕ
unfolding i64_of_millis
now_ms before_unix_epoch = err clock_before_unix_epoch
now_ms (since_unix_epoch d) = i64_of_millis (as_millis d)

unfoldable pub duration_ms : Duration → Result ℕ
unfolding i64_of_millis
duration_ms d = i64_of_millis (as_millis d)

-- `i64::checked_add` of two numbers that are not negative
unfoldable pub checked_add : ℕ → ℕ → Result ℕ
checked_add a b = if fits_i64 (a + b) then ok (a + b) else err duration_out_of_range

unfoldable pub add_duration : ℕ → Duration → Result ℕ
unfolding checked_add duration_ms
add_duration timestamp_ms d = do ms ← duration_ms d; checked_add timestamp_ms ms

-- `saturating_sub` on `i64` does not saturate here, since neither number is negative, and its
-- result may be negative; `as u64` then wraps.
unfoldable pub duration_until_ms : ℕ → SystemTime → Result Duration
unfolding now_ms
duration_until_ms timestamp_ms clock = do
  now ← now_ms clock
  let remaining = (timestamp_ms + u64_mod - now) % u64_mod
  ok (from_millis remaining)
