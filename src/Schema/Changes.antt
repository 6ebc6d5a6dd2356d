-- ===== src/Schema/Changes.antt =====
-- The invariant after a change of the deliveries, of the archives, or of both.
use litefan.Prelude.{
  sym, ◌∙◌, refl, List, Bool, not, delete_where, Among-select_inv, Ascending-select,
}
use litefan.Schema.{Database, DeliveryRow, ArchiveRow}
use litefan.Schema.WellFormed.{WellFormed, IsWork, delivery_key}
use litefan.Schema.Work.{SameKeys, IsWork-select}

-- What the deliveries may become while no other table changes.
pub record IsNextDeliveries (db : Database) (rows : List DeliveryRow) : Type 0 where
  pub work : IsWork delivery_key db.messages db.consumers rows
  pub keys : SameKeys delivery_key rows db.deliveries

pub WellFormed-deliveries :
    (db : Database) (rows : List DeliveryRow)
    → WellFormed db
    → IsNextDeliveries db rows
    → WellFormed (record db { deliveries = rows })
WellFormed-deliveries db rows w n = record {
  log = w.log;
  ledger = w.ledger;
  registry = w.registry;
  deliveries = n.work;
  archives = w.archives;
  archive_ids = w.archive_ids;
  archives_bounded = w.archives_bounded;
  disjoint = λ d a m k e. let o = n.keys d m in w.disjoint o.0 a o.1 k (sym o.2 ∙ e);
}

pub IsNextDeliveries-same : (db : Database) → WellFormed db → IsNextDeliveries db db.deliveries
IsNextDeliveries-same db w = record { work = w.deliveries; keys = λ a m. (a, m, refl) }

-- DELETE FROM litefan_archived_deliveries
pub WellFormed-fewer_archives :
    (db : Database) (p : ArchiveRow → Bool)
    → WellFormed db
    → WellFormed (record db { archives = delete_where p db.archives })
WellFormed-fewer_archives db p w = record {
  log = w.log;
  ledger = w.ledger;
  registry = w.registry;
  deliveries = w.deliveries;
  archives = IsWork-select (λ (a : ArchiveRow). not (p a)) w.archives;
  archive_ids =
      Ascending-select (λ (a : ArchiveRow). a.id) (λ a. not (p a)) db.archives w.archive_ids;
  archives_bounded = λ a n.
      w.archives_bounded a (Among-select_inv (λ (x : ArchiveRow). not (p x)) a db.archives n).0;
  disjoint = λ d a m n.
      w.disjoint d a m (Among-select_inv (λ (x : ArchiveRow). not (p x)) a db.archives n).0;
}
