-- ===== src/Schema/Inserts.antt =====
-- When the inserts of deliveries and archives succeed, and with what rows.
use litefan.Prelude.{
  ℕ, ◌+◌, ◌≡◌, ◌≢◌, sym, ap, ◌∙◌, refl, true, false, List, [], ◌∷◌, ◌++◌, inl, inr, Among,
  Among-append, Distinct, length, Bool-cases, exists_where, exists_where-Among, arith,
}
use mathlib.Core.List.{append_assoc, append-nil}
use litefan.Error.{ok}
use litefan.Schema.{
  Database, DeliveryRow, ArchiveRow, NewArchive, archive_row, has_consumer, has_message, delivers,
  archived_as, insert_deliveries, insert_archives,
}
use litefan.Schema.WellFormed.{delivery_key, archive_key}

pub record CanDeliver (db : Database) (rows : List DeliveryRow) : Type 0 where
  pub distinct : Distinct delivery_key rows
  pub fresh :
      (d e : DeliveryRow) → Among d db.deliveries → Among e rows → delivery_key d ≢ delivery_key e
  pub consumers : (d : DeliveryRow) → Among d rows → has_consumer db d.consumer_id ≡ true
  pub messages : (d : DeliveryRow) → Among d rows → has_message db d.message_id ≡ true

no_conflict :
    (db : Database) (row : DeliveryRow)
    → ((d : DeliveryRow) → Among d db.deliveries → delivery_key d ≢ delivery_key row)
    → exists_where (delivers row.consumer_id row.message_id) db.deliveries ≡ false
no_conflict db row h =
    elim (Bool-cases (exists_where (delivers row.consumer_id row.message_id) db.deliveries)) [
      | inl t ↦
          let (d, among, same) =
            exists_where-Among (delivers row.consumer_id row.message_id) db.deliveries t in
          absurd (h d among (ground arith))
      | inr f ↦ f
    ]

-- Rows that the constraints allow are appended.
pub insert_deliveries_lem :
    (rows : List DeliveryRow) (db : Database)
    → CanDeliver db rows
    → insert_deliveries db rows ≡ ok (record db { deliveries = db.deliveries ++ rows })
unfolding insert_deliveries
insert_deliveries_lem [] db h = rw (append-nil db.deliveries)
insert_deliveries_lem (row ∷ rows) db h =
    rw
      (
        no_conflict db row (λ d m. h.fresh d row m (inl refl)),
        h.consumers row (inl refl),
        h.messages row (inl refl),
      )
      (insert_deliveries_lem rows (record db { deliveries = db.deliveries ++ row ∷ [] }) rest
        ∙ ap (λ (ds : List DeliveryRow). ok (record db { deliveries = ds }))
            (append_assoc db.deliveries (row ∷ []) rows))
  where
    rest : CanDeliver (record db { deliveries = db.deliveries ++ row ∷ [] }) rows
    rest = record {
      distinct = h.distinct.1;
      fresh = λ d e m n. elim (Among-append d db.deliveries (row ∷ []) m) [
        | inl l ↦ h.fresh d e l (inr n)
        | inr (inl q) ↦ λ k. h.distinct.0 e n (ap delivery_key (sym q) ∙ k)
        | inr (inr v) ↦ elim v [ ]
      ];
      consumers = λ d m. h.consumers d (inr m);
      messages = λ d m. h.messages d (inr m);
    }

abbrev pub new_key : NewArchive → ℕ × ℕ
new_key n = (n.consumer_id, n.message_id)

pub record CanArchive (db : Database) (news : List NewArchive) : Type 0 where
  pub distinct : Distinct new_key news
  pub fresh :
      (a : ArchiveRow) (n : NewArchive)
      → Among a db.archives
      → Among n news
      → archive_key a ≢ new_key n
  pub consumers : (n : NewArchive) → Among n news → has_consumer db n.consumer_id ≡ true
  pub messages : (n : NewArchive) → Among n news → has_message db n.message_id ≡ true

-- The rows with their IDs, which go on from the last one given out.
abbrev pub numbered : ℕ → List NewArchive → List ArchiveRow
numbered seq [] = []
numbered seq (n ∷ ns) = archive_row (seq + 1) n ∷ numbered (seq + 1) ns

abbrev pub with_archives : Database → List NewArchive → Database
with_archives db news = record db {
  archives = db.archives ++ numbered db.archive_seq news;
  archive_seq = db.archive_seq + length news;
}

no_archive :
    (db : Database) (new : NewArchive)
    → ((a : ArchiveRow) → Among a db.archives → archive_key a ≢ new_key new)
    → exists_where (archived_as new.consumer_id new.message_id) db.archives ≡ false
no_archive db new h =
    elim (Bool-cases (exists_where (archived_as new.consumer_id new.message_id) db.archives)) [
      | inl t ↦
          let (a, among, same) =
            exists_where-Among (archived_as new.consumer_id new.message_id) db.archives t in
          absurd (h a among (ground arith))
      | inr f ↦ f
    ]

pub insert_archives_lem :
    (news : List NewArchive) (db : Database)
    → CanArchive db news
    → insert_archives db news ≡ ok (with_archives db news)
unfolding insert_archives
insert_archives_lem [] db h = ground (arith, append-nil db.archives)
insert_archives_lem (new ∷ news) db h =
    rw
      (
        no_archive db new (λ a m. h.fresh a new m (inl refl)),
        h.consumers new (inl refl),
        h.messages new (inl refl),
      )
      (insert_archives_lem news db' rest
        ∙ ground (
          arith,
          append_assoc db.archives (archive_row (db.archive_seq + 1) new ∷ [])
              (numbered (db.archive_seq + 1) news),
        ))
  where
    db' : Database
    db' = record db {
      archives = db.archives ++ archive_row (db.archive_seq + 1) new ∷ [];
      archive_seq = db.archive_seq + 1;
    }

    rest : CanArchive db' news
    rest = record {
      distinct = h.distinct.1;
      fresh = λ a n m k.
          elim (Among-append a db.archives (archive_row (db.archive_seq + 1) new ∷ []) m) [
            | inl l ↦ h.fresh a n l (inr k)
            | inr (inl q) ↦ λ e. h.distinct.0 n k (ap archive_key (sym q) ∙ e)
            | inr (inr v) ↦ elim v [ ]
          ];
      consumers = λ n m. h.consumers n (inr m);
      messages = λ n m. h.messages n (inr m);
    }
