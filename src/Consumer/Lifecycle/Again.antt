-- ===== src/Consumer/Lifecycle/Again.antt =====
-- `ConsumerBuilder::open` of src/consumer.rs, for a name that was opened before.
use litefan.Prelude.{ℕ, Option, String, find_where}
use litefan.Error.{Error, Result, ok, ◌>>=◌}
use litefan.Schema.{Database, ConsumerRow}
use litefan.Store.{State}
use litefan.Consumer.{Consumer}
use litefan.Consumer.Lifecycle.{named}

-- The row that a name has.
abbrev pub row_of : String → Database → Option ConsumerRow
row_of name db = find_where (named name) db.consumers

-- The ID of the handle that was opened, with the database.
abbrev pub identity : Result (Consumer × State) → Result (ℕ × Database)
identity opened = opened >>= λ r. ok (r.0.id, r.1.db)
