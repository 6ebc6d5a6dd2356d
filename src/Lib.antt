-- ===== src/Lib.antt =====
-- The verification library of litefan, a durable fan-out message log on SQLite.
--
-- The program. A store (src/store.rs, type LiteFan) publishes messages into one log; every durable
-- consumer (src/consumer.rs, type Consumer) has its own cursor over the log and its own deliveries,
-- which it claims under a lease, acknowledges, releases, extends or archives by receipt. The state is
-- five SQLite tables (src/schema.rs), and in memory the registry of signals that wakes long polls
-- (src/signals.rs). src/storage.rs holds the statements that the two share, src/time.rs the durable
-- time, src/api.rs the public data and src/error.rs the errors.
--
-- Which file models which part.
-- - Prelude: names of the libraries, Boolean tests, lists as tables (select, delete_where,
--   update_where, count_where, sort_by, chunks) and their lemmas.
-- - Error, Error/Display, Error/Ensures: src/error.rs; Result with its bind, the texts of errors, and
--   postconditions of fallible code.
-- - Api: src/api.rs.
-- - Time, Time/Bounds: src/time.rs; `validate_config`, `now_ms`, `duration_ms`, `add_duration`,
--   `duration_until_ms`.
-- - Schema: src/schema.rs; a table is the list of its rows in the order of their insertion, a
--   statement that the schema can refuse returns a Result. Schema/WellFormed is the invariant of the
--   tables, the other children are what keeps it.
-- - Signals: src/signals.rs; `notify_publishes`, `notify_consumer` and the weak entries over a heap of
--   generations.
-- - Schema/Catalog: src/schema.rs, the statements of the schema as they act on a file's tables and
--   indexes.
-- - Storage: src/storage.rs; bind limits, the receipt predicate (`push_receipt_predicate`),
--   `insert_message_rows`, `purge_expired_idempotency`. Storage/Snapshots: `fetch_consumer_snapshots`
--   with the two `snapshot`s of src/consumer.rs and src/store.rs.
-- - Store: src/store.rs; `ensure_batch_size`. Store/Open: `open_with_config`. Store/Publish: `publish`,
--   `publish_batch`, `publish_unkeyed_batch`. Store/Retention: `delete_consumer`, `prune_messages`.
-- - Consumer: src/consumer.rs. Consumer/Lifecycle: `open` and `begin_draining`. Consumer/Receipts:
--   `ack`, `nack`, `extend_visibility` and their batches. Consumer/Archives: `archive`, `archives`,
--   `redrive`, `purge_archives`. Consumer/Claim: `claim` with `fetch_messages`. Consumer/Poll: `poll`.
-- - System: the operations as steps of one state.
-- - Tests: a store with two messages and one consumer, and runs on it.
--
-- Below a component stand the modules of its proofs: Storage/Appends for the log, Counts and
-- Totals for the snapshots; Store/Open/Versions, Reopening and Failing; Store/Retention/Spent
-- and Pruning for pruning, Deletion, Erasure, Refusals and Drained for deletion; under
-- Consumer/Archives, Moves, Transaction and Outcome for archiving, Restoring, Refilling, Redriven and
-- Redriving for redrives, Keeps; Consumer/Lifecycle/Draining and Opening; under
-- Consumer/Receipts, Chunks, Releases, Fencing, Stale and Keeps; under Consumer/Claim, Visible,
-- New, Keeps, Fetch and Transaction for its transaction, Answer, Outcome and Receipts for what
-- it returns, Counts and Ready for how much, Loss for what it leaves; Consumer/Poll/Returns,
-- Keeps and Wakes; Consumer/Lifecycle/Again; Signals/Subscribing, Joining, Sharing and Wakeups;
-- System/Safety. Under Store/Publish, Unkeyed is about batches without keys. OneByOne says what
-- a batch with keys means, message by message; Keys and Seed are about the keys claimed in the
-- ledger, Plan about the messages chosen, Learned about the keys made known, Fill and Table
-- about the ledger with the new IDs, Answers about the outcomes; Transaction, Keyed and Again
-- put them together.
--
-- How code corresponds to definitions. An operation takes the state and returns the new one; where
-- the code can fail before it writes, it returns Result. A transaction is a function of the database:
-- SQLite runs one writer at a time, and a failed transaction leaves the database as it was. A `claim`
-- reads outside its transaction before and after it, so it takes as a parameter what other
-- connections commit in between. SQLite does not promise the order of the rows of a RETURNING clause:
-- the pool has that order as a parameter, and its law says that each row is returned once. A clock
-- reading is an argument of the operation. Times, IDs and counts that the code keeps in an i64 and
-- that are never negative are natural numbers with the code's range checks written out; the cast of
-- `duration_until_ms` is written out modulo 2 ^ 64.
--
-- Loops are structural recursion on lists, over `chunks` for the bind limits, so no fuel is needed. The
-- loop of `poll` goes over a list of rounds, each with what the clocks read and what others do in it;
-- the list is its fuel, and a round at the deadline is enough. The readings of the monotonic clock are
-- nanoseconds, and `Instant::checked_add` is a parameter. To connect to SQLite is a parameter too.
--
-- The keys of a batch are claimed in the order of first occurrence, where the source has the order of
-- its hash set.
--
-- Not modelled: I/O failures of SQLite, the exhaustion of AUTOINCREMENT,
-- and what indexes do, which changes no result.
pub mod Prelude
pub mod Error
pub mod Api
pub mod Time
pub mod Schema
pub mod Signals
pub mod Storage
pub mod Store
pub mod Consumer
pub mod System
pub mod Tests
