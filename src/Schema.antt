-- ===== src/Schema.antt =====
-- src/schema.rs: the tables, and the statements that the schema's constraints guard. A table is the
-- list of its rows in the order of their insertion. AUTOINCREMENT keeps the largest ID that a table
-- has ever given out, beside its rows.
pub mod WellFormed
pub mod Work
pub mod Inserts
pub mod Archived
pub mod Changes
pub mod Catalog
use litefan.Prelude.{
  ℕ, ◌+◌, ◌≤◌, String, Bool, true, false, not, ◌&&◌, ◌||◌, Option, none, some, List, [], ◌∷◌, ◌++◌,
  ◌==◌, leb, text_eq, if◌then◌else◌, select, delete_where, update_where, exists_where, find_where,
  max_of,
}
use litefan.Error.{Result, ok, err, sqlx, unique, foreign_key, check, ◌>>=◌, ◌>>◌}
use litefan.Api.{Message}

pub record IdempotencyRow : Type 0 where
  pub key : List ℕ
  pub message_id : Option ℕ
  pub expires_at : ℕ

pub record ConsumerRow : Type 0 where
  pub id : ℕ
  pub name : String
  pub topic_filter : Option String
  pub created_at : ℕ
  pub draining_at : Option ℕ
  pub scan_cursor : ℕ
  pub drain_cursor : Option ℕ

pub record DeliveryRow : Type 0 where
  pub consumer_id : ℕ
  pub message_id : ℕ
  pub visible_at : ℕ
  pub generation : ℕ
  pub delivery_count : ℕ

pub record ArchiveRow : Type 0 where
  pub id : ℕ
  pub consumer_id : ℕ
  pub message_id : ℕ
  pub archived_at : ℕ
  pub delivery_count : ℕ
  pub last_generation : ℕ
  pub detail : Option String

pub record Database : Type 0 where
  pub messages : List Message
  pub message_seq : ℕ
  pub idempotency : List IdempotencyRow
  pub consumers : List ConsumerRow
  pub consumer_seq : ℕ
  pub deliveries : List DeliveryRow
  pub archives : List ArchiveRow
  pub archive_seq : ℕ

-- CREATE TABLE IF NOT EXISTS on an empty file
abbrev pub empty : Database
empty = record {
  messages = [];
  message_seq = 0;
  idempotency = [];
  consumers = [];
  consumer_seq = 0;
  deliveries = [];
  archives = [];
  archive_seq = 0;
}

-- SELECT COALESCE(MAX(id), 0) FROM litefan_messages
abbrev pub high_water : Database → ℕ
high_water db = max_of (λ (m : Message). m.id) db.messages

abbrev pub has_message : Database → ℕ → Bool
has_message db id = exists_where (λ (m : Message). m.id == id) db.messages

abbrev pub has_consumer : Database → ℕ → Bool
has_consumer db id = exists_where (λ (c : ConsumerRow). c.id == id) db.consumers

abbrev pub find_consumer : Database → ℕ → Option ConsumerRow
find_consumer db id = find_where (λ (c : ConsumerRow). c.id == id) db.consumers

-- The primary key of a delivery.
abbrev pub delivers : ℕ → ℕ → DeliveryRow → Bool
delivers consumer_id message_id d = d.consumer_id == consumer_id && d.message_id == message_id

abbrev pub archived_as : ℕ → ℕ → ArchiveRow → Bool
archived_as consumer_id message_id a = a.consumer_id == consumer_id && a.message_id == message_id

-- INSERT INTO litefan_deliveries, one row: PRIMARY KEY and both REFERENCES.
unfoldable pub insert_delivery : Database → DeliveryRow → Result Database
insert_delivery db row =
    if exists_where (delivers row.consumer_id row.message_id) db.deliveries
    then err (sqlx unique)
    else if has_consumer db row.consumer_id && has_message db row.message_id
    then ok (record db { deliveries = db.deliveries ++ row ∷ [] })
    else err (sqlx foreign_key)

unfoldable pub insert_deliveries : Database → List DeliveryRow → Result Database
unfolding insert_delivery
insert_deliveries db [] = ok db
insert_deliveries db (row ∷ rows) = do db' ← insert_delivery db row; insert_deliveries db' rows

-- The columns of an archive row but its ID, which the statement does not bind.
pub record NewArchive : Type 0 where
  pub consumer_id : ℕ
  pub message_id : ℕ
  pub archived_at : ℕ
  pub delivery_count : ℕ
  pub last_generation : ℕ
  pub detail : Option String

abbrev pub archive_row : ℕ → NewArchive → ArchiveRow
archive_row id new = record {
  id = id;
  consumer_id = new.consumer_id;
  message_id = new.message_id;
  archived_at = new.archived_at;
  delivery_count = new.delivery_count;
  last_generation = new.last_generation;
  detail = new.detail;
}

-- INSERT INTO litefan_archived_deliveries, one row.
unfoldable pub insert_archive : Database → NewArchive → Result Database
insert_archive db new =
    if exists_where (archived_as new.consumer_id new.message_id) db.archives
    then err (sqlx unique)
    else if has_consumer db new.consumer_id && has_message db new.message_id
    then ok (record db {
      archives = db.archives ++ archive_row (db.archive_seq + 1) new ∷ [];
      archive_seq = db.archive_seq + 1;
    })
    else err (sqlx foreign_key)

unfoldable pub insert_archives : Database → List NewArchive → Result Database
unfolding insert_archive
insert_archives db [] = ok db
insert_archives db (new ∷ news) = do db' ← insert_archive db new; insert_archives db' news

-- CHECK (drain_cursor >= scan_cursor), which a NULL passes.
abbrev pub passes_check : ConsumerRow → Bool
passes_check c = elim c.drain_cursor [ none ↦ true | some limit ↦ leb c.scan_cursor limit ]

-- UPDATE litefan_consumers SET f WHERE p
unfoldable pub update_consumers :
    Database → (ConsumerRow → Bool) → (ConsumerRow → ConsumerRow) → Result Database
update_consumers db p f =
    if exists_where (λ (c : ConsumerRow). p c && not (passes_check (f c))) db.consumers
    then err (sqlx check)
    else ok (record db { consumers = update_where p f db.consumers })

-- DELETE FROM litefan_consumers WHERE id = ?: its deliveries go with it (ON DELETE CASCADE), and an
-- archive of it refuses the statement (ON DELETE RESTRICT).
unfoldable pub delete_consumer_row : Database → ℕ → Result Database
delete_consumer_row db id =
    if has_consumer db id && exists_where (λ (a : ArchiveRow). a.consumer_id == id) db.archives
    then err (sqlx foreign_key)
    else ok (record db {
      consumers = delete_where (λ (c : ConsumerRow). c.id == id) db.consumers;
      deliveries =
          if has_consumer db id
          then delete_where (λ (d : DeliveryRow). d.consumer_id == id) db.deliveries
          else db.deliveries;
    })

-- DELETE FROM litefan_messages WHERE p: deliveries cascade, archives restrict.
unfoldable pub delete_messages : Database → (Message → Bool) → Result Database
delete_messages db p =
    if exists_where
      (λ (m : Message). p m && exists_where (λ (a : ArchiveRow). a.message_id == m.id) db.archives)
      db.messages
    then err (sqlx foreign_key)
    else ok (record db {
      messages = delete_where p db.messages;
      deliveries =
          delete_where
            (λ (d : DeliveryRow).
              exists_where (λ (m : Message). p m && m.id == d.message_id) db.messages)
            db.deliveries;
    })
