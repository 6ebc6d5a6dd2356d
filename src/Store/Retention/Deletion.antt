-- ===== src/Store/Retention/Deletion.antt =====
-- `delete_consumer` of src/store.rs removes one consumer with its work, and nothing else.
use litefan.Prelude.{
  ℕ, ◌≡◌, inl, inr, Bool, true, false, not, arith, ◌==◌, Among-select, Among-select_inv,
  Distinct-select, delete_where, exists_where, exists_where-true, Bool-cases,
}
use litefan.Error.{ok}
use litefan.Schema.{
  Database, ConsumerRow, DeliveryRow, ArchiveRow, has_consumer, delete_consumer_row,
}
use litefan.Schema.WellFormed.{WellFormed, Scanned}
use litefan.Schema.Work.{IsWork-select, IsWork-consumers}

module _ (db : Database) (id : ℕ) (w : WellFormed db)
    (unarchived : exists_where (λ (a : ArchiveRow). a.consumer_id == id) db.archives ≡ false) where
  abbrev is_doomed : ConsumerRow → Bool
  is_doomed c = c.id == id

  abbrev is_own : DeliveryRow → Bool
  is_own d = d.consumer_id == id

  abbrev pub bereft : Database
  bereft = record db {
    consumers = delete_where is_doomed db.consumers;
    deliveries = delete_where is_own db.deliveries;
  }

  still-Scanned :
      (i m : ℕ)
      → (i == id) ≡ false
      → Scanned db.consumers i m
      → Scanned (delete_where is_doomed db.consumers) i m
  still-Scanned i m other (c, n, same, le) =
      (c, Among-select (λ x. not (is_doomed x)) c db.consumers n (ground arith), same, le)

  pub bereft-WellFormed : WellFormed bereft
  bereft-WellFormed = record {
    log = w.log;
    ledger = w.ledger;
    registry = record {
      ids =
          Distinct-select (λ (c : ConsumerRow). c.id) (λ c. not (is_doomed c)) db.consumers
            w.registry.ids;
      names =
          Distinct-select (λ (c : ConsumerRow). c.name) (λ c. not (is_doomed c)) db.consumers
            w.registry.names;
      bounded = λ c n.
          w.registry.bounded c (Among-select_inv (λ x. not (is_doomed x)) c db.consumers n).0;
      each =
          λ c n. w.registry.each c (Among-select_inv (λ x. not (is_doomed x)) c db.consumers n).0;
    };
    deliveries =
        IsWork-consumers (delete_where is_doomed db.consumers)
          (λ d n s.
            let r = Among-select_inv (λ x. not (is_own x)) d db.deliveries n in
            still-Scanned d.consumer_id d.message_id (ground arith) s)
          (IsWork-select (λ d. not (is_own d)) w.deliveries);
    archives =
        IsWork-consumers (delete_where is_doomed db.consumers)
          (λ a n s.
            still-Scanned a.consumer_id a.message_id
              (elim (Bool-cases (a.consumer_id == id)) [
                | inl t ↦ cc (
                  exists_where-true (λ (x : ArchiveRow). x.consumer_id == id) a db.archives n t,
                  unarchived,
                )
                | inr f ↦ f
              ])
              s)
          w.archives;
    archive_ids = w.archive_ids;
    archives_bounded = w.archives_bounded;
    disjoint =
        λ d a m n. w.disjoint d a (Among-select_inv (λ x. not (is_own x)) d db.deliveries m).0 n;
  }

-- The statement succeeds only where no archive of the consumer is left.
pub delete_consumer_row-eq-ok :
    (db : Database) (id : ℕ) (db' : Database)
    → has_consumer db id ≡ true
    → delete_consumer_row db id ≡ ok db'
    → (exists_where (λ (a : ArchiveRow). a.consumer_id == id) db.archives ≡ false)
      × (db' ≡ record db {
        consumers = delete_where (λ (c : ConsumerRow). c.id == id) db.consumers;
        deliveries = delete_where (λ (d : DeliveryRow). d.consumer_id == id) db.deliveries;
      })
unfolding delete_consumer_row
delete_consumer_row-eq-ok db id db' known h =
    elim (Bool-cases (exists_where (λ (a : ArchiveRow). a.consumer_id == id) db.archives)) [
      | inl t ↦ cc (rw (known, t) at h)
      | inr f ↦ (f, cc (rw (known, f) at h))
    ]
