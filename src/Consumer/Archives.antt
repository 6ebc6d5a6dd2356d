-- ===== src/Consumer/Archives.antt =====
-- src/consumer.rs, terminal outcomes: `archive` and its batches, the listing of archives, `redrive`
-- and `purge_archives`.
pub mod Moves
pub mod Keeps
pub mod Restoring
pub mod Refilling
pub mod Redriven
pub mod Redriving
pub mod Outcome
pub mod Transaction
use Prim.Native.Nat.{◌/◌}
use litefan.Prelude.{
  ℕ, ◌-◌, String, Bool, ◌&&◌, Option, none, some, List, [], ◌∷◌, ◌++◌, map, ◌==◌, ltb,
  if◌then◌else◌, or_default, length, is_nil, take, chunks, sort_by, select, delete_where,
  count_where, exists_where, find_where,
}
use litefan.Error.{Result, ok, err, invalid_config, ◌>>=◌, ◌>>◌}
use litefan.Api.{
  Message, Receipt, Retry, delay, BatchResult, default_batch_result, ArchivedDelivery, ListArchives,
  PurgeArchives, earlier,
}
use litefan.Time.{SystemTime, now_ms, add_duration, fits_i64}
use litefan.Schema.{
  Database, DeliveryRow, ArchiveRow, NewArchive, insert_deliveries, insert_archives,
}
use litefan.Storage.{Pool, ArchivedLease, max_sql_variables, receipts_per_chunk, owns}
use litefan.Store.{State, ensure_batch_size}
use litefan.Consumer.{Consumer}
use litefan.Consumer.Receipts.{delete_receipts, batch_result, notified}

abbrev pub archived_lease : DeliveryRow → ArchivedLease
archived_lease d = record {
  consumer_id = d.consumer_id;
  message_id = d.message_id;
  generation = d.generation;
  delivery_count = d.delivery_count;
}

pub record Removed : Type 0 where
  pub archived : List ArchivedLease
  pub rows : List DeliveryRow

-- The loop of DELETE … RETURNING over the chunks of receipts.
unfoldable pub remove_chunks : Pool → ℕ → List (List Receipt) → List DeliveryRow → Removed
remove_chunks pool id [] rows = record { archived = []; rows = rows }
remove_chunks pool id (c ∷ cs) rows =
    let rest = remove_chunks pool id cs (delete_receipts id c rows) in
    record {
      archived =
          pool.returning_archived (map archived_lease (select (owns id c) rows)) ++ rest.archived;
      rows = rest.rows;
    }

abbrev pub new_archive : ℕ → Option String → ArchivedLease → NewArchive
new_archive archived_at detail lease = record {
  consumer_id = lease.consumer_id;
  message_id = lease.message_id;
  archived_at = archived_at;
  delivery_count = lease.delivery_count;
  last_generation = lease.generation;
  detail = detail;
}

unfoldable pub insert_archive_chunks : Database → List (List NewArchive) → Result Database
insert_archive_chunks db [] = ok db
insert_archive_chunks db (c ∷ cs) = do db' ← insert_archives db c; insert_archive_chunks db' cs

unfoldable pub insert_archived_leases :
    Database → List ArchivedLease → ℕ → Option String → Result Database
unfolding insert_archive_chunks
insert_archived_leases db leases archived_at detail =
    insert_archive_chunks db
      (chunks (max_sql_variables / 6) (map (new_archive archived_at detail) leases))

abbrev lease_message_id : ArchivedLease → ℕ
lease_message_id l = l.message_id

-- The transaction of the batch: what it archived, in the order of the message IDs, and the database.
unfoldable pub archive_transaction :
    Consumer → List Receipt → Option String → ℕ → Database → Result (List ArchivedLease × Database)
unfolding remove_chunks insert_archived_leases
archive_transaction self receipts detail archived_at db = do
  let removed =
      remove_chunks self.fan.pool self.id (chunks receipts_per_chunk receipts) db.deliveries
  let archived = sort_by lease_message_id removed.archived
  db' ← insert_archived_leases (record db { deliveries = removed.rows }) archived archived_at detail
  ok (archived, db')

unfoldable pub archive_batch_with_detail :
    Consumer → List Receipt → Option String → SystemTime → State → Result (BatchResult × State)
unfolding archive_transaction
archive_batch_with_detail self receipts detail clock s =
    if is_nil receipts then ok (default_batch_result, s) else do
      ensure_batch_size self.fan (length receipts)
      archived_at ← now_ms clock
      done ← archive_transaction self receipts detail archived_at s.db
      let s' = record s { db = done.1 }
      ok (batch_result receipts (length done.0), if is_nil done.0 then s' else notified self s')

unfoldable pub archive_batch :
    Consumer → List Receipt → SystemTime → State → Result (BatchResult × State)
unfolding archive_batch_with_detail
archive_batch self receipts clock s = archive_batch_with_detail self receipts none clock s

unfoldable pub archive : Consumer → Receipt → SystemTime → State → Result (Bool × State)
unfolding archive_batch
archive self receipt clock s = do
  r ← archive_batch self (receipt ∷ []) clock s
  ok (r.0.applied == 1, r.1)

unfoldable pub archive_with_detail :
    Consumer → Receipt → String → SystemTime → State → Result (Bool × State)
unfolding archive_batch_with_detail
archive_with_detail self receipt detail clock s = do
  r ← archive_batch_with_detail self (receipt ∷ []) (some detail) clock s
  ok (r.0.applied == 1, r.1)

-- JOIN litefan_messages: an archive without its message gives no row.
unfoldable pub join_messages : List Message → List ArchiveRow → List ArchivedDelivery
join_messages messages [] = []
join_messages messages (a ∷ rest) =
    elim (find_where (λ (m : Message). m.id == a.message_id) messages) [
      | none ↦ join_messages messages rest
      | some m ↦
          record {
            id = a.id;
            message = m;
            delivery_count = a.delivery_count;
            archived_at_ms = a.archived_at;
            detail = a.detail;
          }
          ∷ join_messages messages rest
    ]

abbrev archived_delivery_id : ArchivedDelivery → ℕ
archived_delivery_id a = a.id

unfoldable pub archives : Consumer → ListArchives → Database → Result (List ArchivedDelivery)
unfolding join_messages
archives self list db = if list.max_archives == 0 then ok [] else do
  ensure_batch_size self.fan list.max_archives
  if fits_i64 list.max_archives
      then ok (
          take list.max_archives (
            sort_by archived_delivery_id (
              join_messages db.messages (
                select
                  (λ (a : ArchiveRow).
                    a.consumer_id == self.id && ltb (or_default list.after 0) a.id)
                  db.archives))))
      else err (invalid_config "archive page size must fit in SQLite")

-- `consumer_id = ? AND id IN (…)`
abbrev pub picks : ℕ → List ℕ → ArchiveRow → Bool
picks consumer_id ids a = a.consumer_id == consumer_id && exists_where (λ id. id == a.id) ids

pub record Restored : Type 0 where
  pub message_ids : List ℕ
  pub rows : List ArchiveRow

-- The loop of DELETE … RETURNING message_id over the chunks of archive IDs.
unfoldable pub restore_chunks : Pool → ℕ → List (List ℕ) → List ArchiveRow → Restored
restore_chunks pool id [] rows = record { message_ids = []; rows = rows }
restore_chunks pool id (c ∷ cs) rows =
    let rest = restore_chunks pool id cs (delete_where (picks id c) rows) in
    record {
      message_ids =
          pool.returning_ids (map (λ (a : ArchiveRow). a.message_id) (select (picks id c) rows))
          ++ rest.message_ids;
      rows = rest.rows;
    }

abbrev pub fresh_delivery : ℕ → ℕ → ℕ → DeliveryRow
fresh_delivery consumer_id visible_at message_id = record {
  consumer_id = consumer_id;
  message_id = message_id;
  visible_at = visible_at;
  generation = 0;
  delivery_count = 0;
}

unfoldable pub insert_delivery_chunks : Database → List (List DeliveryRow) → Result Database
insert_delivery_chunks db [] = ok db
insert_delivery_chunks db (c ∷ cs) = do db' ← insert_deliveries db c; insert_delivery_chunks db' cs

unfoldable pub redrive_transaction : Consumer → List ℕ → ℕ → Database → Result (List ℕ × Database)
unfolding restore_chunks insert_delivery_chunks
redrive_transaction self archive_ids visible_at db = do
  let restored =
      restore_chunks self.fan.pool self.id (chunks (max_sql_variables - 1) archive_ids) db.archives
  db' ←
      insert_delivery_chunks (record db { archives = restored.rows })
        (chunks (max_sql_variables / 5)
          (map (fresh_delivery self.id visible_at) restored.message_ids))
  ok (restored.message_ids, db')

unfoldable pub redrive_batch :
    Consumer → List ℕ → Retry → SystemTime → State → Result (BatchResult × State)
unfolding redrive_transaction
redrive_batch self archive_ids retry clock s =
    if is_nil archive_ids then ok (default_batch_result, s) else do
      ensure_batch_size self.fan (length archive_ids)
      now ← now_ms clock
      visible_at ← add_duration now (delay retry)
      done ← redrive_transaction self archive_ids visible_at s.db
      let s' = record s { db = done.1 }
      ok (
        record { applied = length done.0; stale = length archive_ids - length done.0 },
        if is_nil done.0 then s' else notified self s',
      )

unfoldable pub redrive : Consumer → ℕ → Retry → SystemTime → State → Result (Bool × State)
unfolding redrive_batch
redrive self archive_id retry clock s = do
  r ← redrive_batch self (archive_id ∷ []) retry clock s
  ok (r.0.applied == 1, r.1)

-- The IDs that the subquery of `purge_archives` selects.
unfoldable pub purgeable : Consumer → PurgeArchives → Database → List ℕ
purgeable self purge db = take purge.max_archives (
    sort_by (λ id. id)
      (map (λ (a : ArchiveRow). a.id)
        (select
          (λ (a : ArchiveRow). a.consumer_id == self.id && earlier a.archived_at purge.before_ms)
          db.archives)))

-- The outcome is the number of deleted archives.
unfoldable pub purge_archives : Consumer → PurgeArchives → State → Result (ℕ × State)
unfolding purgeable
purge_archives self purge s = if purge.max_archives == 0 then ok (0, s) else do
  ensure_batch_size self.fan purge.max_archives
  if fits_i64 purge.max_archives
      then (let chosen =
            λ (a : ArchiveRow). exists_where (λ id. id == a.id) (purgeable self purge s.db) in
          ok (
            count_where chosen s.db.archives,
            record s { db = record s.db { archives = delete_where chosen s.db.archives } },
          ))
      else err (invalid_config "archive purge size must fit in SQLite")
