-- ===== src/Store/Open.antt =====
-- src/store.rs, `open_with_config`: the limits of the configuration, the connection options, and the
-- version checks on the file around the statements of the schema. To connect is SQLite's: the
-- function that does it is a parameter.
pub mod Versions
pub mod Failing
pub mod Reopening
use litefan.Prelude.{
  ℕ, String, Bool, true, false, List, [], ◌∷◌, ltb, text_eq, if◌then◌else◌, Option, none, some,
}
use litefan.Error.{
  Result, ok, err, invalid_config, incompatible_schema, unsupported_schema_version, ◌>>=◌, ◌>>◌,
}
use litefan.Api.{ℤ, pos, negsuc, Duration, Config, Synchronous, default_config}
use litefan.Time.{as_millis, fits_i64, validate_config}
use litefan.Schema.Catalog.{File, can_read, execute_all, sql, version}
use litefan.Signals.{Signals, new_signals}
use litefan.Storage.{Pool}
use litefan.Store.{LiteFan}

pub data JournalMode : Type 0 where
  delete truncate persist memory wal disabled : JournalMode

pub record ConnectOptions : Type 0 where
  pub filename : String
  pub create_if_missing : Bool
  pub journal_mode : JournalMode
  pub synchronous : Synchronous
  pub busy_timeout : Duration
  pub foreign_keys : Bool
  pub wal_autocheckpoint : ℕ

abbrev pub connect_options : String → Config → ConnectOptions
connect_options path config = record {
  filename = path;
  create_if_missing = true;
  journal_mode = wal;
  synchronous = config.synchronous;
  busy_timeout = config.busy_timeout;
  foreign_keys = true;
  wal_autocheckpoint = config.wal_autocheckpoint_pages;
}

-- Separate `:memory:` connections are separate databases.
abbrev pub max_connections : String → Config → ℕ
max_connections path config = if text_eq path ":memory:" then 1 else config.max_connections

-- `connect_with`, for at most so many connections
abbrev pub Connect : Type 0
Connect = ConnectOptions → ℕ → Result (Pool × File)

-- The version that an error names: it is larger than the supported one.
abbrev pub newer_version : ℤ → Option ℕ
newer_version (pos n) = if ltb version n then some n else none
newer_version (negsuc n) = none

abbrev pub older_version : ℤ → Bool
older_version (pos n) = ltb n version
older_version (negsuc n) = true

-- The two SELECTs that must be prepared.
unfoldable pub is_compatible : File → Bool
is_compatible file =
    if can_read "litefan_consumers" ("scan_cursor" ∷ "drain_cursor" ∷ []) file
    then can_read "litefan_archived_deliveries" ("consumer_id" ∷ "message_id" ∷ "detail" ∷ []) file
    else false

abbrev pub with_version : File → File
with_version file =
    if older_version file.user_version then record file { user_version = pos version } else file

-- What `open_with_config` does to the file.
unfoldable pub prepare : File → Result (Unit {0}) × File
unfolding execute_all is_compatible
prepare file = elim (newer_version file.user_version) [
  | some found ↦ (err (unsupported_schema_version found version), file)
  | none ↦
      let created = execute_all sql file in
      elim created.0 [
        | err e ↦ (err e, created.1)
        | ok done ↦
            if is_compatible created.1
            then (ok tt, with_version created.1)
            else (err incompatible_schema, created.1)
      ]
]

-- The checks before a connection is made: the idempotency window in milliseconds.
unfoldable pub checked_window : Config → Result ℕ
checked_window config = do
  validate_config config
  if fits_i64 (as_millis config.idempotency_window)
      then ok (as_millis config.idempotency_window)
      else err (invalid_config "idempotency_window must fit in SQLite milliseconds")

pub record Opened : Type 0 where
  pub fan : LiteFan
  pub signals : Signals
  pub file : File

unfoldable pub open_with_config : Connect → String → Config → Result Opened
unfolding checked_window prepare
open_with_config connect path config = do
  idempotency_window_ms ← checked_window config
  connected ← connect (connect_options path config) (max_connections path config)
  let prepared = prepare connected.1
  prepared.0
  ok (record {
    fan = record {
      pool = connected.0;
      max_batch_size = config.max_batch_size;
      cross_process_poll_interval = config.cross_process_poll_interval;
      idempotency_window_ms = idempotency_window_ms;
    };
    signals = new_signals;
    file = prepared.1;
  })

-- `LiteFan::open`
abbrev pub open_store : Connect → String → Result Opened
open_store connect path = open_with_config connect path default_config
