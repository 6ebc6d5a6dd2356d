-- ===== src/Store.antt =====
-- src/store.rs: the handle of a database. The state is the database with the process's signals; a
-- call that fails leaves both as they were, since its transaction is rolled back.
pub mod Limits
pub mod Publish
pub mod Open
pub mod Retention
use litefan.Prelude.{ℕ, ltb, if◌then◌else◌}
use litefan.Error.{Result, ok, err, batch_too_large}
use litefan.Api.{Duration}
use litefan.Schema.{Database}
use litefan.Signals.{Signals}
use litefan.Storage.{Pool}

pub record State : Type 0 where
  pub db : Database
  pub signals : Signals

pub record LiteFan : Type 0 where
  pub pool : Pool
  pub max_batch_size : ℕ
  pub cross_process_poll_interval : Duration
  pub idempotency_window_ms : ℕ

unfoldable pub ensure_batch_size : LiteFan → ℕ → Result (Unit {0})
ensure_batch_size fan requested =
    if ltb fan.max_batch_size requested
    then err (batch_too_large requested fan.max_batch_size)
    else ok tt
