-- ===== src/Consumer/Archives/Moves.antt =====
-- `archive_batch` moves the deliveries that its receipts name into the archive: on a well-formed
-- database it succeeds, and the invariant is kept.
use litefan.Prelude.{
  ℕ, ◌≡◌, ◌≢◌, refl, sym, ap, ◌∙◌, inl, inr, ◌⊎◌, true, not, List, [], ◌∷◌, ◌++◌, map, arith, Among,
  Among-append, Among-append_left, Among-append_right, Among-select, Distinct-eq, length-append,
  length-Permᴰ, length-map, Among-map, Among-map_inv, Among-select_inv, length, concat, select,
  Distinct, Distinct-append, Distinct-select, Distinct-of_map, Distinct-Permᴰ, Among-Permᴰ,
  Bool-cases,
}
use mathlib.Core.List.Permᴰ
use litefan.Error.{◌>>=◌, Result-cases}
use litefan.Api.{Receipt}
use litefan.Schema.{Database, DeliveryRow, NewArchive, insert_archive, insert_archives}
use litefan.Schema.WellFormed.{delivery_key}
use litefan.Storage.{Pool, ReturnsRows, ArchivedLease, owns}
use litefan.Consumer.Receipts.{delete_receipts, for_chunks}
use litefan.Consumer.Archives.{Removed, archived_lease, remove_chunks, insert_archive_chunks}

abbrev pub lease_key : ArchivedLease → ℕ × ℕ
lease_key l = (l.consumer_id, l.message_id)

-- Inserting chunk by chunk is inserting at once.
insert_archives-append :
    (xs ys : List NewArchive) (db : Database)
    → insert_archives db (xs ++ ys) ≡ (insert_archives db xs >>= λ db'. insert_archives db' ys)
unfolding insert_archives
insert_archives-append [] ys db = refl
insert_archives-append (x ∷ xs) ys db = elim (Result-cases (insert_archive db x)) [
  | inl (db', e) ↦ rw e (insert_archives-append xs ys db')
  | inr (e, q) ↦ rw q refl
]

pub insert_archive_chunks-concat :
    (cs : List (List NewArchive)) (db : Database)
    → insert_archive_chunks db cs ≡ insert_archives db (concat cs)
unfolding insert_archive_chunks insert_archives
insert_archive_chunks-concat [] db = refl
insert_archive_chunks-concat (c ∷ cs) db = elim (Result-cases (insert_archives db c)) [
  | inl (db', e) ↦
      rw (insert_archives-append c (concat cs) db, e) (insert_archive_chunks-concat cs db')
  | inr (e, q) ↦ rw (insert_archives-append c (concat cs) db, q) refl
]

owns-consumer :
    (id : ℕ) (c : List Receipt) (d : DeliveryRow) → owns id c d ≡ true → d.consumer_id ≡ id
unfolding owns
owns-consumer id c d h = ground arith

-- The rows that the loop of DELETE … RETURNING leaves are those that the loop of `ack_batch` leaves.
pub remove_chunks-rows :
    (pool : Pool) (id : ℕ) (cs : List (List Receipt)) (rows : List DeliveryRow)
    → (remove_chunks pool id cs rows).rows ≡ (for_chunks id (delete_receipts id) cs rows).rows
unfolding remove_chunks for_chunks
remove_chunks-rows pool id [] rows = refl
remove_chunks-rows pool id (c ∷ cs) rows = remove_chunks-rows pool id cs (delete_receipts id c rows)

-- What the loop returns: leases of rows that were there and are gone, each once, and no row is lost.
pub record IsRemoved (id : ℕ) (start : List DeliveryRow) (r : Removed) : Type 0 where
  pub distinct : Distinct lease_key r.archived
  pub origin :
      (l : ArchivedLease)
      → Among l r.archived
      → (d : DeliveryRow) × Among d start × (l ≡ archived_lease d) × (d.consumer_id ≡ id)
  pub gone :
      (l : ArchivedLease) (d : DeliveryRow)
      → Among l r.archived
      → Among d r.rows
      → lease_key l ≢ delivery_key d
  pub kept : (d : DeliveryRow) → Among d r.rows → Among d start
  pub none_lost :
      (d : DeliveryRow) → Among d start → Among d r.rows ⊎ Among (archived_lease d) r.archived

module _ (pool : Pool) (lawful : ReturnsRows pool) (id : ℕ) where
  -- The rows that one statement deletes, as it returns them.
  abbrev returned : List Receipt → List DeliveryRow → List ArchivedLease
  returned c rows = pool.returning_archived (map archived_lease (select (owns id c) rows))

  returned-origin :
      (c : List Receipt) (rows : List DeliveryRow) (l : ArchivedLease)
      → Among l (returned c rows)
      → (d : DeliveryRow) × Among d rows × (l ≡ archived_lease d) × (owns id c d ≡ true)
  returned-origin c rows l m =
      let (d, n, e) =
        Among-map_inv archived_lease l (select (owns id c) rows)
          (Among-Permᴰ l (lawful.archived (map archived_lease (select (owns id c) rows))) m) in
      let r = Among-select_inv (owns id c) d rows n in (d, r.0, e, r.1)

  returned-gone :
      (c : List Receipt) (rows : List DeliveryRow)
      → Distinct delivery_key rows
      → (l : ArchivedLease) (d : DeliveryRow) → Among l (returned c rows)
      → Among d (delete_receipts id c rows)
      → lease_key l ≢ delivery_key d
  returned-gone c rows distinct l d m n e =
      let (x, among, same, owned) = returned-origin c rows l m in
      let r = Among-select_inv (λ y. not (owns id c y)) d rows n in
      let one : x ≡ d =
        Distinct-eq delivery_key rows x d distinct among r.0 (ap lease_key (sym same) ∙ e) in
      cc (owned, r.1, one)

  IsRemoved-step :
      (c : List Receipt) (rows : List DeliveryRow) (rest : Removed)
      → Distinct delivery_key rows
      → IsRemoved id (delete_receipts id c rows) rest
      → IsRemoved id rows (record { archived = returned c rows ++ rest.archived; rows = rest.rows })
  IsRemoved-step c rows rest distinct ih = record {
    distinct =
        Distinct-append lease_key (returned c rows) rest.archived
          (Distinct-Permᴰ lease_key
            (Permᴰ.symm (lawful.archived (map archived_lease (select (owns id c) rows))))
            (Distinct-of_map delivery_key lease_key archived_lease (select (owns id c) rows)
              (λ d. refl) (Distinct-select delivery_key (owns id c) rows distinct)))
          ih.distinct
          (λ l k m n e.
            let (d, among, same, own) = ih.origin k n in
            returned-gone c rows distinct l d m among (e ∙ ap lease_key same));
    origin = λ l m. elim (Among-append l (returned c rows) rest.archived m) [
      | inl n ↦
          let (d, among, same, owned) = returned-origin c rows l n in
          (d, among, same, owns-consumer id c d owned)
      | inr n ↦ let (d, among, same, own) = ih.origin l n in (d, before d among, same, own)
    ];
    gone = λ l d m n. elim (Among-append l (returned c rows) rest.archived m) [
      | inl k ↦ returned-gone c rows distinct l d k (ih.kept d n)
      | inr k ↦ ih.gone l d k n
    ];
    kept = λ d m. before d (ih.kept d m);
    none_lost = λ d m. elim (Bool-cases (owns id c d)) [
      | inl t ↦ inr (
          Among-append_left (archived_lease d) (returned c rows) rest.archived (
            Among-Permᴰ (archived_lease d)
              (Permᴰ.symm (lawful.archived (map archived_lease (select (owns id c) rows))))
              (Among-map archived_lease d (select (owns id c) rows)
                (Among-select (owns id c) d rows m t))))
      | inr f ↦ elim (ih.none_lost d (Among-select (λ y. not (owns id c y)) d rows m (rw f refl))) [
        | inl k ↦ inl k
        | inr k ↦ inr (Among-append_right (archived_lease d) (returned c rows) rest.archived k)
      ]
    ];
  }
    where
      before : (d : DeliveryRow) → Among d (delete_receipts id c rows) → Among d rows
      before d m = (Among-select_inv (λ y. not (owns id c y)) d rows m).0

  pub remove_chunks-IsRemoved :
      (cs : List (List Receipt)) (rows : List DeliveryRow)
      → Distinct delivery_key rows
      → IsRemoved id rows (remove_chunks pool id cs rows)
  unfolding remove_chunks
  remove_chunks-IsRemoved [] rows distinct = record {
    distinct = tt;
    origin = λ l m. elim m [ ];
    gone = λ l d m. elim m [ ];
    kept = λ d m. m;
    none_lost = λ d m. inl m;
  }
  remove_chunks-IsRemoved (c ∷ cs) rows distinct =
      IsRemoved-step c rows (remove_chunks pool id cs (delete_receipts id c rows)) distinct (
        remove_chunks-IsRemoved cs (delete_receipts id c rows)
          (Distinct-select delivery_key (λ d. not (owns id c d)) rows distinct))

  pub length-remove_chunks :
      (cs : List (List Receipt)) (rows : List DeliveryRow)
      → length (remove_chunks pool id cs rows).archived
        ≡ (for_chunks id (delete_receipts id) cs rows).applied
  unfolding remove_chunks for_chunks
  length-remove_chunks [] rows = refl
  length-remove_chunks (c ∷ cs) rows = omega (
    arith,
    length-append (returned c rows) (remove_chunks pool id cs (delete_receipts id c rows)).archived,
    length-Permᴰ (lawful.archived (map archived_lease (select (owns id c) rows))),
    length-map archived_lease (select (owns id c) rows),
    length-remove_chunks cs (delete_receipts id c rows),
  )
