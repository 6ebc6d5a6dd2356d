-- ===== src/Error/Display.antt =====
-- src/error.rs: the texts of errors, and the database error behind one. How the standard library
-- writes a number and a quoted string, and sqlx its errors, is a parameter.
use Prim.Native.String.{◌++◌}
use litefan.Prelude.{ℕ, String, Option, none, some}
use litefan.Error.{
  DatabaseError, Error, sqlx, batch_too_large, consumer_configuration_mismatch, empty_consumer_name,
  invalid_config, invalid_poll, invalid_visibility_timeout, incompatible_schema,
  unsupported_schema_version, incomplete_idempotency_entry, consumer_deleted, consumer_not_found,
  consumer_not_draining, consumer_not_empty, consumer_has_archives, clock_before_unix_epoch,
  duration_out_of_range, counter_out_of_range, storage_invariant,
}

-- `{}` of a number, `{:?}` of a string and `{}` of a database error
pub record Formats : Type 0 where
  pub decimal : ℕ → String
  pub quoted : String → String
  pub database : DatabaseError → String

-- `fmt::Display`
unfoldable pub display : Formats → Error → String
display f (sqlx e) = "SQLite error: " ++ f.database e
display f (batch_too_large requested maximum) =
    "batch contains " ++ f.decimal requested ++ " items; maximum is " ++ f.decimal maximum
display f (consumer_configuration_mismatch name) =
    "consumer " ++ f.quoted name ++ " already exists with different durable configuration"
display f empty_consumer_name = "consumer name cannot be empty"
display f (invalid_config message) = "invalid configuration: " ++ message
display f (invalid_poll message) = "invalid poll: " ++ message
display f invalid_visibility_timeout = "visibility timeout must be at least one millisecond"
display f incompatible_schema = "database contains an incompatible unversioned litefan schema"
display f (unsupported_schema_version found maximum) =
    "database schema version "
    ++ f.decimal found
    ++ " is newer than supported version "
    ++ f.decimal maximum
display f incomplete_idempotency_entry = "idempotency ledger contains an incomplete entry"
display f (consumer_deleted name) = "consumer " ++ f.quoted name ++ " has been deleted"
display f (consumer_not_found name) = "consumer " ++ f.quoted name ++ " does not exist"
display f (consumer_not_draining name) = "consumer " ++ f.quoted name ++ " is still active"
display f (consumer_not_empty name outstanding) =
    "consumer "
    ++ f.quoted name
    ++ " still has "
    ++ f.decimal outstanding
    ++ " outstanding deliveries"
display f (consumer_has_archives name archived) =
    "consumer " ++ f.quoted name ++ " still has " ++ f.decimal archived ++ " archived deliveries"
display f clock_before_unix_epoch = "system clock is before the Unix epoch"
display f duration_out_of_range = "duration does not fit in SQLite milliseconds"
display f counter_out_of_range = "SQLite counter does not fit in the Rust type"
display f (storage_invariant message) = "storage invariant violated: " ++ message

-- `Error::source`
abbrev pub source : Error → Option DatabaseError
source (sqlx e) = some e
source _ = none

-- `From<sqlx::Error>`, which `?` applies to what a statement answers
abbrev pub from : DatabaseError → Error
from e = sqlx e
