-- ===== src/Store/Retention.antt =====
-- src/store.rs, `delete_consumer` and `prune_messages`.
pub mod Spent
pub mod Drained
pub mod Erasure
pub mod Deletion
pub mod Refusals
pub mod Pruning
use litefan.Prelude.{
  ℕ, ◌+◌, String, Bool, true, not, ◌&&◌, none, some, List, map, ◌==◌, ltb, leb, text_eq,
  if◌then◌else◌, is_some, take, sort_by, select, delete_where, count_where, exists_where,
  find_where,
}
use litefan.Error.{
  Result, ok, err, or_fail, consumer_not_found, consumer_not_draining, consumer_not_empty,
  consumer_has_archives, invalid_config, ◌>>=◌, ◌>>◌,
}
use litefan.Api.{
  Message, DeleteMode, drained_only, discard_outstanding, discard_all, DeleteOutcome, Prune,
  earlier,
}
use litefan.Time.{fits_i64}
use litefan.Schema.{
  Database, ConsumerRow, DeliveryRow, ArchiveRow, delete_consumer_row, delete_messages,
}
use litefan.Schema.WellFormed.{message_key}
use litefan.Signals.{notify_consumer}
use litefan.Store.{State, LiteFan, ensure_batch_size}
use litefan.Consumer.Claim.{matches_topic}

-- message.id > scan_cursor AND (drain_cursor IS NULL OR message.id <= drain_cursor)
-- AND (topic_filter IS NULL OR message.topic = topic_filter)
abbrev pub unseen : ConsumerRow → Message → Bool
unseen c m =
    ltb c.scan_cursor m.id
    && elim c.drain_cursor [ none ↦ true | some limit ↦ leb m.id limit ]
    && matches_topic c.topic_filter m.topic

abbrev pub deliveries_of : ConsumerRow → Database → ℕ
deliveries_of c db = count_where (λ (d : DeliveryRow). d.consumer_id == c.id) db.deliveries

abbrev pub archives_of : ConsumerRow → Database → ℕ
archives_of c db = count_where (λ (a : ArchiveRow). a.consumer_id == c.id) db.archives

abbrev pub outstanding_of : ConsumerRow → Database → ℕ
outstanding_of c db = deliveries_of c db + count_where (unseen c) db.messages

-- The guards of `delete_consumer`, in their order.
unfoldable pub deletion_guard : String → DeleteMode → Bool → ℕ → ℕ → Result (Unit {0})
deletion_guard name drained_only draining outstanding archived =
    if not draining
    then err (consumer_not_draining name)
    else if ltb 0 outstanding
    then err (consumer_not_empty name outstanding)
    else if ltb 0 archived
    then err (consumer_has_archives name archived)
    else ok tt
deletion_guard name discard_outstanding draining outstanding archived =
    if ltb 0 archived then err (consumer_has_archives name archived) else ok tt
deletion_guard name discard_all draining outstanding archived = ok tt

-- DELETE FROM litefan_archived_deliveries WHERE consumer_id = ?, in the one mode that runs it.
unfoldable pub discard_archives : DeleteMode → ℕ → Database → Database
discard_archives discard_all id db = record db {
  archives = delete_where (λ (a : ArchiveRow). a.consumer_id == id) db.archives;
}
discard_archives _ id db = db

unfoldable pub delete_consumer : String → DeleteMode → State → Result (DeleteOutcome × State)
unfolding deletion_guard discard_archives
delete_consumer name mode s = do
  c ←
      or_fail (consumer_not_found name)
        (find_where (λ (c : ConsumerRow). text_eq c.name name) s.db.consumers)
  let outstanding = outstanding_of c s.db
  let archived = archives_of c s.db
  deletion_guard name mode (is_some c.draining_at) outstanding archived
  db' ← delete_consumer_row (discard_archives mode c.id s.db) c.id
  ok (
    record { discarded_deliveries = outstanding; discarded_archives = archived },
    record { db = db'; signals = notify_consumer c.id s.signals },
  )

-- Old enough, and needed by no delivery, no archive and no consumer that has not come to it.
unfoldable pub is_prunable : Prune → Database → Message → Bool
is_prunable prune db m =
    earlier m.published_at_ms prune.before_ms
    && not (exists_where (λ (d : DeliveryRow). d.message_id == m.id) db.deliveries)
    && not (exists_where (λ (a : ArchiveRow). a.message_id == m.id) db.archives)
    && not (exists_where (λ (c : ConsumerRow). unseen c m) db.consumers)

-- ORDER BY message.id LIMIT ?
unfoldable pub prune_selection : Prune → Database → List ℕ
unfolding is_prunable
prune_selection prune db =
    take prune.max_messages
      (map message_key (sort_by message_key (select (is_prunable prune db) db.messages)))

-- The outcome is the number of deleted messages.
unfoldable pub prune_messages : LiteFan → Prune → State → Result (ℕ × State)
unfolding prune_selection
prune_messages fan prune s = if prune.max_messages == 0 then ok (0, s) else do
  ensure_batch_size fan prune.max_messages
  if fits_i64 prune.max_messages
      then (do
        let chosen = λ (m : Message). exists_where (λ id. id == m.id) (prune_selection prune s.db)
        db' ← delete_messages s.db chosen
        ok (count_where chosen s.db.messages, record s { db = db' }))
      else err (invalid_config "prune max_messages must fit in SQLite")
