-- ===== src/Storage.antt =====
-- src/storage.rs: bind limits, receipts as a predicate on deliveries, message insertion and the
-- expiry of the idempotency ledger. SQLite returns the rows of a RETURNING clause in an order that
-- it does not promise: the pool has that order as a parameter.
pub mod Appends
pub mod Snapshots
pub mod Counts
pub mod Totals
use litefan.Prelude.{
  ℕ, ◌+◌, ◌-◌, ◌/◌, Bool, ◌&&◌, List, [], ◌∷◌, ◌++◌, Permᴰ, ◌==◌, leb, chunks, sort_by,
  delete_where, exists_where,
}
use litefan.Api.{Message, Publish, Receipt}
use litefan.Schema.{Database, IdempotencyRow, DeliveryRow}

abbrev pub max_sql_variables : ℕ
max_sql_variables = 999

abbrev pub receipts_per_chunk : ℕ
receipts_per_chunk = (max_sql_variables - 1) / 3

abbrev publishes_per_chunk : ℕ
publishes_per_chunk = max_sql_variables / 3

pub record Lease : Type 0 where
  pub message_id : ℕ
  pub generation : ℕ
  pub delivery_count : ℕ

-- src/consumer.rs, what `archive_batch_with_detail` keeps of a deleted delivery
pub record ArchivedLease : Type 0 where
  pub consumer_id : ℕ
  pub message_id : ℕ
  pub generation : ℕ
  pub delivery_count : ℕ

-- The orders in which RETURNING gives its rows.
pub record Pool : Type 0 where
  pub returning_ids : List ℕ → List ℕ
  pub returning_leases : List Lease → List Lease
  pub returning_archived : List ArchivedLease → List ArchivedLease

-- RETURNING gives each affected row once.
pub record ReturnsRows (pool : Pool) : Type 0 where
  pub ids : (xs : List ℕ) → Permᴰ (pool.returning_ids xs) xs
  pub leases : (xs : List Lease) → Permᴰ (pool.returning_leases xs) xs
  pub archived : (xs : List ArchivedLease) → Permᴰ (pool.returning_archived xs) xs

-- `(consumer_id, message_id, generation) IN (…)`
unfoldable pub receipt_predicate : List Receipt → DeliveryRow → Bool
receipt_predicate receipts d =
    exists_where
      (λ (r : Receipt).
        r.consumer_id == d.consumer_id
        && r.message_id == d.message_id
        && r.generation == d.generation)
      receipts

-- `consumer_id = ?` and the receipt predicate
unfoldable pub owns : ℕ → List Receipt → DeliveryRow → Bool
unfolding receipt_predicate
owns consumer_id receipts d = d.consumer_id == consumer_id && receipt_predicate receipts d

abbrev pub message_row : ℕ → ℕ → Publish → Message
message_row id published_at p = record {
  id = id;
  topic = p.topic;
  body = p.body;
  published_at_ms = published_at;
}

-- One INSERT of a chunk: the new rows take the next IDs in the order of VALUES.
unfoldable pub insert_values : Database → List Publish → ℕ → List ℕ × Database
insert_values db [] published_at = ([], db)
insert_values db (p ∷ ps) published_at =
    let id = db.message_seq + 1 in
    let (ids, db') =
      insert_values
        (record db {
          messages = db.messages ++ message_row id published_at p ∷ [];
          message_seq = id;
        })
        ps published_at in
    (id ∷ ids, db')

unfoldable pub insert_chunks : Pool → Database → List (List Publish) → ℕ → List ℕ × Database
unfolding insert_values
insert_chunks pool db [] published_at = ([], db)
insert_chunks pool db (c ∷ cs) published_at =
    let (ids, db') = insert_values db c published_at in
    let (rest, db'') = insert_chunks pool db' cs published_at in
    (pool.returning_ids ids ++ rest, db'')

unfoldable pub insert_message_rows : Pool → Database → List Publish → ℕ → List ℕ × Database
unfolding insert_chunks
insert_message_rows pool db messages published_at =
    let (ids, db') = insert_chunks pool db (chunks publishes_per_chunk messages) published_at in
    (sort_by (λ id. id) ids, db')

unfoldable pub purge_expired_idempotency : Database → ℕ → Database
purge_expired_idempotency db now = record db {
  idempotency = delete_where (λ (k : IdempotencyRow). leb k.expires_at now) db.idempotency;
}
