-- ===== src/Schema/WellFormed.antt =====
-- The invariant of the tables, which every operation keeps. It is stated table by table, so that an
-- operation proves the part of the tables that it writes.
use litefan.Prelude.{ℕ, ◌≤◌, ◌≡◌, ◌≢◌, some, List, Among, Distinct, Ascending, is_some}
use litefan.Api.{Message}
use litefan.Schema.{Database, IdempotencyRow, ConsumerRow, DeliveryRow, ArchiveRow, empty}

abbrev pub message_key : Message → ℕ
message_key m = m.id

abbrev pub delivery_key : DeliveryRow → ℕ × ℕ
delivery_key d = (d.consumer_id, d.message_id)

abbrev pub archive_key : ArchiveRow → ℕ × ℕ
archive_key a = (a.consumer_id, a.message_id)

abbrev pub Retained : List Message → ℕ → Type 0
Retained messages id = (m : Message) × Among m messages × (m.id ≡ id)

-- The consumer exists and its cursor has passed the message.
abbrev pub Scanned : List ConsumerRow → ℕ → ℕ → Type 0
Scanned consumers consumer_id message_id =
    (c : ConsumerRow) × Among c consumers × (c.id ≡ consumer_id) × (message_id ≤ c.scan_cursor)

-- The log is in the order of its IDs, none above the largest ID given out.
pub record IsLog (messages : List Message) (seq : ℕ) : Type 0 where
  pub ascend : Ascending message_key messages
  pub bounded : (m : Message) → Among m messages → m.id ≤ seq

-- Keys are unique, and outside a transaction each has the ID of a published message.
pub record IsLedger (rows : List IdempotencyRow) (seq : ℕ) : Type 0 where
  pub distinct : Distinct (λ (k : IdempotencyRow). k.key) rows
  pub complete :
      (k : IdempotencyRow) → Among k rows → (id : ℕ) × (k.message_id ≡ some id) × (id ≤ seq)

pub record IsConsumer (c : ConsumerRow) (seq : ℕ) : Type 0 where
  pub cursor : c.scan_cursor ≤ seq
  pub drains : (limit : ℕ) → c.drain_cursor ≡ some limit → (c.scan_cursor ≤ limit) × (limit ≤ seq)
  pub draining : is_some c.draining_at ≡ is_some c.drain_cursor

pub record IsRegistry (consumers : List ConsumerRow) (consumer_seq seq : ℕ) : Type 0 where
  pub ids : Distinct (λ (c : ConsumerRow). c.id) consumers
  pub names : Distinct (λ (c : ConsumerRow). c.name) consumers
  pub bounded : (c : ConsumerRow) → Among c consumers → c.id ≤ consumer_seq
  pub each : (c : ConsumerRow) → Among c consumers → IsConsumer c seq

-- Rows that stand for one consumer's copy of one message, at most one row to a copy.
pub record IsWork {A : Type 0} (key : A → ℕ × ℕ) (messages : List Message)
    (consumers : List ConsumerRow) (rows : List A) : Type 0 where
  pub distinct : Distinct key rows
  pub retained : (a : A) → Among a rows → Retained messages (key a).1
  pub scanned : (a : A) → Among a rows → Scanned consumers (key a).0 (key a).1

pub record WellFormed (db : Database) : Type 0 where
  pub log : IsLog db.messages db.message_seq
  pub ledger : IsLedger db.idempotency db.message_seq
  pub registry : IsRegistry db.consumers db.consumer_seq db.message_seq
  pub deliveries : IsWork delivery_key db.messages db.consumers db.deliveries
  pub archives : IsWork archive_key db.messages db.consumers db.archives
  pub archive_ids : Ascending (λ (a : ArchiveRow). a.id) db.archives
  pub archives_bounded : (a : ArchiveRow) → Among a db.archives → a.id ≤ db.archive_seq
  pub disjoint :
      (d : DeliveryRow) (a : ArchiveRow)
      → Among d db.deliveries
      → Among a db.archives
      → delivery_key d ≢ archive_key a

pub empty-WellFormed : WellFormed empty
empty-WellFormed = record {
  log = record { ascend = tt; bounded = λ m n. elim n [ ] };
  ledger = record { distinct = tt; complete = λ k n. elim n [ ] };
  registry = record { ids = tt; names = tt; bounded = λ c n. elim n [ ]; each = λ c n. elim n [ ] };
  deliveries = record { distinct = tt; retained = λ a n. elim n [ ]; scanned = λ a n. elim n [ ] };
  archives = record { distinct = tt; retained = λ a n. elim n [ ]; scanned = λ a n. elim n [ ] };
  archive_ids = tt;
  archives_bounded = λ a n. elim n [ ];
  disjoint = λ d a n. elim n [ ];
}
