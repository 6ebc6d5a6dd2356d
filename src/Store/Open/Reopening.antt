-- ===== src/Store/Open/Reopening.antt =====
-- `open_with_config` of src/store.rs on a file that it has opened before.
use litefan.Prelude.{ℕ, ◌≡◌, refl, ap, inl, inr, String, leb_iff}
use litefan.Error.{Result, ok, Result-cases, ◌>>=◌}
use litefan.Error.Ensures.{Ensures-ok}
use litefan.Api.{Config}
use litefan.Time.{i64_max, as_millis, validate_config}
use litefan.Time.Bounds.{IsValidConfig, validate_config_iff}
use litefan.Schema.Catalog.{File}
use litefan.Signals.{new_signals}
use litefan.Storage.{Pool}
use litefan.Store.Open.{
  Connect, connect_options, max_connections, prepare, checked_window, Opened, open_with_config,
}
use litefan.Store.Open.Versions.{IsPrepared, prepare-IsPrepared, prepare_again}

checked_window-valid :
    (config : Config)
    → IsValidConfig config
    → checked_window config ≡ ok (as_millis config.idempotency_window)
unfolding checked_window
checked_window-valid config valid =
    let e = (validate_config_iff config).1 valid in
    rw (e, (leb_iff (as_millis config.idempotency_window) i64_max).1 valid.window_fits) refl

checked_window-IsValidConfig :
    (config : Config) (n : ℕ) → checked_window config ≡ ok n → IsValidConfig config
unfolding checked_window
checked_window-IsValidConfig config n h = elim (Result-cases (validate_config config)) [
  | inl (u, p) ↦ (validate_config_iff config).0 p
  | inr (e, p) ↦ cc (rw p at h)
]

-- A store that was opened: its file has everything, and its limits are those of a valid configuration.
pub record IsOpened (config : Config) (file : File) (opened : Opened) : Type 0 where
  pub prepared : IsPrepared opened.file
  pub rows : opened.file.db ≡ file.db
  pub valid : IsValidConfig config
  pub batch : opened.fan.max_batch_size ≡ config.max_batch_size
  pub window : opened.fan.idempotency_window_ms ≡ as_millis config.idempotency_window
  pub interval : opened.fan.cross_process_poll_interval ≡ config.cross_process_poll_interval

abbrev opened_of : Config → Pool → File → Opened
opened_of config pool file = record {
  fan = record {
    pool = pool;
    max_batch_size = config.max_batch_size;
    cross_process_poll_interval = config.cross_process_poll_interval;
    idempotency_window_ms = as_millis config.idempotency_window;
  };
  signals = new_signals;
  file = file;
}

-- The rest of `open_with_config` once the file is prepared.
abbrev answer : Config → Pool → Result (Unit {0}) × File → Result Opened
answer config pool prepared = prepared.0 >>= λ done. ok (opened_of config pool prepared.1)

-- If `open_with_config` succeeds on a file, the configuration is within its limits and the handle has
-- them, the file has every table and index of the schema and the supported version, and no row of
-- it has changed.
pub open_with_config-IsOpened :
    (connect : Connect) (path : String) (config : Config) (pool : Pool) (file : File)
    (opened : Opened)
    → connect (connect_options path config) (max_connections path config) ≡ ok (pool, file)
    → open_with_config connect path config ≡ ok opened
    → IsOpened config file opened
unfolding open_with_config
open_with_config-IsOpened connect path config pool file opened e h =
    elim (Result-cases (checked_window config)) [
      | inr (x, p) ↦ cc (rw (p, open_with_config) at h)
      | inl (n, p) ↦
          let valid = checked_window-IsValidConfig config n p in
          let exact : n ≡ as_millis config.idempotency_window =
            cc (p, checked_window-valid config valid) in
          elim (Result-cases (prepare file).0) [
            | inr (x, q) ↦ cc (rw (p, e, q, open_with_config) at h)
            | inl (u, q) ↦
                let (prepared, rows) = prepare-IsPrepared file q in
                Ensures-ok (IsOpened config file) _
                  (record {
                    prepared = prepared;
                    rows = rows;
                    valid = valid;
                    batch = refl;
                    window = exact;
                    interval = refl;
                  })
                  opened (rw (p, e, q, open_with_config) at h)
          ]
    ]

-- If a store was opened, to open its file again, under whatever valid configuration, succeeds and
-- changes nothing of the file.
pub open_with_config_again :
    (connect connect' : Connect) (path path' : String) (config config' : Config) (pool pool' : Pool)
    (file : File) (opened : Opened)
    → connect (connect_options path config) (max_connections path config) ≡ ok (pool, file)
    → open_with_config connect path config ≡ ok opened
    → IsValidConfig config'
    → connect' (connect_options path' config') (max_connections path' config')
      ≡ ok (pool', opened.file)
    → (again : Opened) × (open_with_config connect' path' config' ≡ ok again)
      × (again.file ≡ opened.file)
unfolding open_with_config
open_with_config_again connect connect' path path' config config' pool pool' file opened e h valid
      e' =
    let good = open_with_config-IsOpened connect path config pool file opened e h in
    let window = checked_window-valid config' valid in
    (
      opened_of config' pool' opened.file,
      rw (window, e', open_with_config)
          (ap (answer config' pool') (prepare_again opened.file good.prepared)),
      refl,
    )
