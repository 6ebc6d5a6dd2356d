-- ===== src/Tests/Opening.antt =====
-- Opening a new file, opening it again, and a file that it cannot take.
use litefan.Prelude.{◌∷◌, ◌≡◌, refl, [], arith, text_eq}
use litefan.Error.{ok, err, incompatible_schema}
use litefan.Api.{pos, default_config}
use litefan.Time.Bounds.{IsValidConfig}
use litefan.Schema.{empty}
use litefan.Schema.Catalog.{File, execute_all}
use litefan.Store.Open.{Connect, Opened, open_with_config, prepare, is_compatible}
use litefan.Store.Open.Failing.{IsSpared, prepare-IsSpared}
use litefan.Store.Open.Reopening.{IsOpened, open_with_config-IsOpened, open_with_config_again}
use litefan.Time.{validate_config}
use litefan.Signals.{new_signals}
use litefan.Tests.Fixtures.{pool}

abbrev new_file : File
new_file = record { user_version = pos 0; tables = []; indexes = []; db = empty }

abbrev connect_to : File → Connect
connect_to file = λ options connections. ok (pool, file)

abbrev opened : Opened
opened = elim (open_with_config (connect_to new_file) "log.db" default_config) [
  | ok o ↦ o
  | err e ↦ record {
    fan = record {
      pool = pool;
      max_batch_size = 0;
      cross_process_poll_interval = 0;
      idempotency_window_ms = 0;
    };
    signals = new_signals;
    file = new_file;
  }
]

opened_run : open_with_config (connect_to new_file) "log.db" default_config ≡ ok opened
unfolding open_with_config execute_all is_compatible validate_config text_eq
opened_run = refl

default_config-IsValidConfig : IsValidConfig default_config
default_config-IsValidConfig = record {
  connections = omega arith;
  batch = omega arith;
  batch_fits = omega arith;
  interval = omega arith;
  window = omega arith;
  window_fits = omega arith;
}

open_with_config-IsOpened_example : IsOpened default_config new_file opened
open_with_config-IsOpened_example =
    open_with_config-IsOpened (connect_to new_file) "log.db" default_config pool new_file opened
      refl opened_run

open_with_config_again_example :
    (again : Opened) × (open_with_config (connect_to opened.file) "log.db" default_config
      ≡ ok again)
    × (again.file ≡ opened.file)
open_with_config_again_example =
    open_with_config_again (connect_to new_file) (connect_to opened.file) "log.db" "log.db"
      default_config default_config pool pool new_file opened refl opened_run
      default_config-IsValidConfig refl

-- A file of the program's first version, whose consumers have no cursors.
abbrev early_file : File
early_file = record new_file {
  tables = record { name = "litefan_consumers"; columns = "id" ∷ "name" ∷ [] } ∷ [];
  user_version = pos 1;
}

early_run : (prepare early_file).0 ≡ err incompatible_schema
unfolding prepare execute_all is_compatible text_eq
early_run = refl

prepare-IsSpared_example : IsSpared early_file (prepare early_file).0 (prepare early_file).1
prepare-IsSpared_example = prepare-IsSpared early_file
