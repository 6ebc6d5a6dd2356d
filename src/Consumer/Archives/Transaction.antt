-- ===== src/Consumer/Archives/Transaction.antt =====
-- The transaction of `archive_batch_with_detail`, and what the call leaves behind.
use litefan.Prelude.{
  ◌⊎◌, Among-append, Among-select, Bool-cases, ℕ, ◌/◌, ◌≡◌, refl, sym, ap, ◌∙◌, subst, inl, inr,
  true, not, Option, String, List, [], ◌∷◌, map, Among, Among-map, Among-map_inv,
  Among-append_right, Among-sort_by, Among-sort_by_back, Distinct, Distinct-of_map,
  Ascending-Distinct, sort_by, sort_by-Ascending, chunks, concat-chunks, length, length-sort_by,
  Among-select_inv, count_where, arith,
}
use litefan.Error.{Result, ok, ◌>>=◌}
use litefan.Api.{Receipt}
use litefan.Schema.{Database, DeliveryRow, ArchiveRow, NewArchive, archive_row, insert_archives}
use litefan.Schema.WellFormed.{WellFormed, delivery_key, Retained, Scanned}
use litefan.Schema.Work.{has_message-Retained, has_consumer-Scanned}
use litefan.Schema.Changes.{WellFormed-deliveries, IsNextDeliveries, IsNextDeliveries-same}
use litefan.Schema.Inserts.{new_key, numbered, with_archives, insert_archives_lem}
use litefan.Schema.Archived.{
  Among-numbered, IsNextArchives, with_archives-WellFormed, numbered-Among,
}
use litefan.Storage.{ReturnsRows, ArchivedLease, owns, max_sql_variables, receipts_per_chunk}
use litefan.Consumer.{Consumer}
use litefan.Consumer.Receipts.{Applied, delete_receipts}
use litefan.Consumer.Receipts.Keeps.{IsNextDeliveries-select}
use litefan.Consumer.Receipts.Chunks.{for_chunks-delete_all}
use litefan.Consumer.Archives.{
  Removed, archived_lease, remove_chunks, new_archive, insert_archived_leases, archive_transaction,
  lease_message_id,
}
use litefan.Consumer.Archives.Moves.{
  lease_key, insert_archive_chunks-concat, remove_chunks-rows, IsRemoved, remove_chunks-IsRemoved,
  length-remove_chunks,
}

-- Keys that tell rows apart whenever other keys are the same.
Distinct-via :
    (key : ArchivedLease → ℕ × ℕ) (key' : ArchivedLease → ℕ) (xs : List ArchivedLease)
    → ((a b : ArchivedLease) → Among a xs → Among b xs → key' a ≡ key' b → key a ≡ key b)
    → Distinct key xs
    → Distinct key' xs
Distinct-via key key' [] h d = tt
Distinct-via key key' (x ∷ xs) h d = (
  λ a m e. d.0 a m (h x a (inl refl) (inr m) e),
  Distinct-via key key' xs (λ a b m n. h a b (inr m) (inr n)) d.1,
)

Distinct-finer : (xs : List ArchivedLease) → Distinct lease_message_id xs → Distinct lease_key xs
Distinct-finer [] d = tt
Distinct-finer (x ∷ xs) d = (λ a m e. d.0 a m (ap (λ (k : ℕ × ℕ). k.1) e), Distinct-finer xs d.1)

module _ (self : Consumer) (receipts : List Receipt) (detail : Option String) (archived_at : ℕ)
    (db : Database) (lawful : ReturnsRows self.fan.pool) (w : WellFormed db) where
  abbrev pub removed : Removed
  removed = remove_chunks self.fan.pool self.id (chunks receipts_per_chunk receipts) db.deliveries

  abbrev pub archived : List ArchivedLease
  archived = sort_by lease_message_id removed.archived

  abbrev pub news : List NewArchive
  news = map (new_archive archived_at detail) archived

  abbrev pub remaining : Database
  remaining = record db { deliveries = removed.rows }

  pub is_removed : IsRemoved self.id db.deliveries removed
  is_removed =
      remove_chunks-IsRemoved self.fan.pool lawful self.id (chunks receipts_per_chunk receipts)
        db.deliveries w.deliveries.distinct

  pub removed_rows : removed.rows ≡ delete_receipts self.id receipts db.deliveries
  removed_rows =
      remove_chunks-rows self.fan.pool self.id (chunks receipts_per_chunk receipts) db.deliveries
      ∙ ap (λ (a : Applied). a.rows) (for_chunks-delete_all self.id receipts db.deliveries)

  remaining-WellFormed : WellFormed remaining
  remaining-WellFormed = WellFormed-deliveries db removed.rows w (
      subst (IsNextDeliveries db) (sym removed_rows)
        (IsNextDeliveries-select (λ d. not (owns self.id receipts d)) (IsNextDeliveries-same db w)))

  -- The delivery that an archive replaces.
  origin :
      (n : NewArchive)
      → Among n news
      → (d : DeliveryRow) × Among d db.deliveries
        × (new_key n ≡ delivery_key d)
        × ((l : ArchivedLease) × Among l removed.archived × (lease_key l ≡ delivery_key d))
  origin n m =
      let (l, among, e) = Among-map_inv (new_archive archived_at detail) n archived m in
      let back = Among-sort_by lease_message_id l removed.archived among in
      let (d, there, same, own) = is_removed.origin l back in
      (d, there, ap new_key e ∙ ap lease_key same, (l, back, ap lease_key same))

  Distinct-archived : Distinct lease_key archived
  Distinct-archived = Distinct-finer archived (
      Ascending-Distinct lease_message_id archived (
        sort_by-Ascending lease_message_id removed.archived (
          Distinct-via lease_key lease_message_id removed.archived
            (λ a b m n e.
              let x = is_removed.origin a m in
              let y = is_removed.origin b n in
              λ i. (
                (ap (λ (l : ArchivedLease). l.consumer_id) x.2
                      ∙ x.3
                      ∙ sym y.3
                      ∙ sym (ap (λ (l : ArchivedLease). l.consumer_id) y.2))
                    i,
                e i,
              ))
            is_removed.distinct)))

  new-Retained : (n : NewArchive) → Among n news → Retained db.messages n.message_id
  new-Retained n k =
      let o = origin n k in
      subst (λ (x : ℕ × ℕ). Retained db.messages x.1) (sym o.2) (w.deliveries.retained o.0 o.1)

  new-Scanned : (n : NewArchive) → Among n news → Scanned db.consumers n.consumer_id n.message_id
  new-Scanned n k =
      let o = origin n k in
      subst (λ (x : ℕ × ℕ). Scanned db.consumers x.0 x.1) (sym o.2) (w.deliveries.scanned o.0 o.1)

  next_archives : IsNextArchives remaining news
  next_archives = record {
    can = record {
      distinct =
          Distinct-of_map lease_key new_key (new_archive archived_at detail) archived (λ l. refl)
            Distinct-archived;
      fresh = λ a n m k e. let o = origin n k in w.disjoint o.0 a o.1 m (sym o.2 ∙ sym e);
      consumers = λ n k. has_consumer-Scanned db n.consumer_id n.message_id (new-Scanned n k);
      messages = λ n k. has_message-Retained db n.message_id (new-Retained n k);
    };
    retained = new-Retained;
    scanned = new-Scanned;
    gone = λ d n m k e.
        let o = origin n k in let l = o.3 in is_removed.gone l.0 d l.1 m (l.2 ∙ sym o.2 ∙ sym e);
  }

  inserted :
      insert_archived_leases remaining archived archived_at detail
      ≡ ok (with_archives remaining news)
  unfolding insert_archived_leases
  inserted =
      insert_archive_chunks-concat (chunks (max_sql_variables / 6) news) remaining
      ∙ ap (insert_archives remaining) (concat-chunks (max_sql_variables / 6) news (omega arith))
      ∙ insert_archives_lem news remaining next_archives.can

  pub archive_transaction_lem :
      archive_transaction self receipts detail archived_at db
      ≡ ok (archived, with_archives remaining news)
  unfolding archive_transaction
  archive_transaction_lem = ap (λ (r : Result Database). r >>= λ db'. ok (archived, db')) inserted

  pub transaction-WellFormed : WellFormed (with_archives remaining news)
  transaction-WellFormed =
      with_archives-WellFormed remaining news remaining-WellFormed next_archives

  pub length-archived : length archived ≡ count_where (owns self.id receipts) db.deliveries
  length-archived =
      length-sort_by lease_message_id removed.archived
      ∙ length-remove_chunks self.fan.pool lawful self.id (chunks receipts_per_chunk receipts)
          db.deliveries
      ∙ ap (λ (a : Applied). a.applied) (for_chunks-delete_all self.id receipts db.deliveries)

  -- Every new archive is of a row that a receipt names.
  pub archived-source :
      (a : ArchiveRow)
      → Among a (with_archives remaining news).archives
      → Among a db.archives
        ⊎ ((d : DeliveryRow) × Among d db.deliveries
            × (owns self.id receipts d ≡ true)
            × (a ≡ archive_row a.id (new_archive archived_at detail (archived_lease d))))
  archived-source a m = elim (Among-append a db.archives (numbered db.archive_seq news) m) [
    | inl l ↦ inl l
    | inr r ↦
        let numbered_row = Among-numbered db.archive_seq news a r in
        let (l, among, e) =
          Among-map_inv (new_archive archived_at detail) numbered_row.new archived
            numbered_row.among in
        let back = Among-sort_by lease_message_id l removed.archived among in
        let (d, there, same, own) = is_removed.origin l back in
        elim (Bool-cases (owns self.id receipts d)) [
          | inl t ↦ inr (
            d,
            there,
            t,
            numbered_row.row ∙ ap (archive_row a.id) (e ∙ ap (new_archive archived_at detail) same),
          )
          | inr f ↦ absurd (
              is_removed.gone l d back
                (subst (Among d) (sym removed_rows) (
                  Among-select (λ x. not (owns self.id receipts x)) d db.deliveries there
                    (rw f refl)))
                (ap lease_key same))
        ]
  ]

  -- Every row that a receipt names is archived.
  pub archived-numbered :
      (d : DeliveryRow)
      → Among d db.deliveries
      → owns self.id receipts d ≡ true
      → (id : ℕ) × Among
          (archive_row id (new_archive archived_at detail (archived_lease d)))
          (with_archives remaining news).archives
  archived-numbered d m t = elim (is_removed.none_lost d m) [
    | inl n ↦
        let r =
          Among-select_inv (λ x. not (owns self.id receipts x)) d db.deliveries
            (subst (Among d) removed_rows n) in
        cc (t, r.1)
    | inr n ↦
        let r =
          numbered-Among db.archive_seq news (new_archive archived_at detail (archived_lease d)) (
            Among-map (new_archive archived_at detail) (archived_lease d) archived
              (Among-sort_by_back lease_message_id (archived_lease d) removed.archived n)) in
        (r.0, Among-append_right _ db.archives (numbered db.archive_seq news) r.1)
  ]
