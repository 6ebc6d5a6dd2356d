-- ===== src/Consumer/Lifecycle.antt =====
-- src/consumer.rs, `ConsumerBuilder::open` and `begin_draining`.
pub mod Draining
pub mod Opening
pub mod Again
use litefan.Prelude.{
  ℕ, ◌+◌, String, Bool, true, false, not, ◌&&◌, Option, none, some, [], ◌∷◌, ◌++◌, max, ◌==◌,
  text_eq, is_some, if◌then◌else◌, find_where, exists_where, count_where,
}
use litefan.Error.{
  Result, ok, err, empty_consumer_name, consumer_configuration_mismatch, sqlx, row_not_found, ◌>>=◌,
}
use litefan.Api.{Filter, as_database_value}
use litefan.Time.{SystemTime, now_ms}
use litefan.Schema.{Database, ConsumerRow, high_water, has_consumer, update_consumers}
use litefan.Signals.{publishes_for, consumer_signal_for}
use litefan.Store.{State, LiteFan}
use litefan.Consumer.{Consumer, deleted_error}
use litefan.Consumer.Receipts.{notified}

abbrev pub named : String → ConsumerRow → Bool
named name c = text_eq c.name name

abbrev pub new_consumer_row : Database → String → Filter → ℕ → ConsumerRow
new_consumer_row db name filter now = record {
  id = db.consumer_seq + 1;
  name = name;
  topic_filter = as_database_value filter;
  created_at = now;
  draining_at = none;
  scan_cursor = high_water db;
  drain_cursor = none;
}

-- INSERT … ON CONFLICT(name) DO NOTHING
unfoldable pub insert_consumer : Database → String → Filter → ℕ → Database
insert_consumer db name filter now =
    if exists_where (named name) db.consumers then db else record db {
      consumers = db.consumers ++ new_consumer_row db name filter now ∷ [];
      consumer_seq = db.consumer_seq + 1;
    }

abbrev pub same_filter : Option String → Option String → Bool
same_filter none none = true
same_filter (some a) (some b) = text_eq a b
same_filter _ _ = false

-- The transaction of `open`: the ID of the row of that name.
unfoldable pub open_transaction : String → Filter → ℕ → Database → Result (ℕ × Database)
unfolding insert_consumer
open_transaction name filter now db =
    let db' = insert_consumer db name filter now in
    elim (find_where (named name) db'.consumers) [
      | none ↦ err (sqlx row_not_found)
      | some row ↦
          if same_filter row.topic_filter (as_database_value filter)
          then ok (row.id, db')
          else err (consumer_configuration_mismatch name)
    ]

unfoldable pub open_consumer :
    LiteFan → String → Filter → SystemTime → State → Result (Consumer × State)
unfolding open_transaction
open_consumer fan name filter clock s = if text_eq name "" then err empty_consumer_name else do
  now ← now_ms clock
  opened ← open_transaction name filter now s.db
  let (publish_signal, signals) = publishes_for filter s.signals
  let (consumer_signal, signals') = consumer_signal_for opened.0 signals
  ok (
    record {
      publish_signal = publish_signal;
      consumer_signal = consumer_signal;
      fan = fan;
      id = opened.0;
      name = name;
      filter = filter;
    },
    record { db = opened.1; signals = signals' },
  )

-- WHERE id = ? AND draining_at IS NULL
abbrev pub is_active_row : ℕ → ConsumerRow → Bool
is_active_row id c = c.id == id && not (is_some c.draining_at)

abbrev pub drain_row : ℕ → ℕ → ConsumerRow → ConsumerRow
drain_row draining_at limit c = record c {
  draining_at = some draining_at;
  drain_cursor = some (max c.scan_cursor limit);
}

-- The second statement reads the database as other connections have left it: `between` is what they
-- committed since the first.
unfoldable pub begin_draining :
    Consumer → SystemTime → (Database → Database) → State → Result (Bool × State)
begin_draining self clock between s = do
  draining_at ← now_ms clock
  let changed = count_where (is_active_row self.id) s.db.consumers == 1
  db' ← update_consumers s.db (is_active_row self.id) (drain_row draining_at (high_water s.db))
  if changed
      then ok (true, notified self (record s { db = db' }))
      else if has_consumer (between db') self.id
      then ok (false, record s { db = between db' })
      else err (deleted_error self)
