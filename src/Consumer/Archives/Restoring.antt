-- ===== src/Consumer/Archives/Restoring.antt =====
-- The loop of `redrive_batch`: it takes archives away, each once, and gives their message IDs.
use litefan.Prelude.{
  ◌+◌, count_where, length, length-append, length-Permᴰ, length-map, exists_where-append, ℕ, ◌≡◌,
  ◌≢◌, refl, sym, ap, ◌∙◌, inl, inr, ◌⊎◌, true, not, List, [], ◌∷◌, ◌++◌, map, arith, ◌==◌, Among,
  Among-append, Among-append_left, Among-append_right, Among-map, Among-map_inv, Among-select,
  Among-select_inv, select, delete_where, concat, Distinct, Distinct-eq, Distinct-append,
  Distinct-select, Distinct-Permᴰ, Among-Permᴰ, Bool-cases, Permᴰ,
}
use mathlib.Core.List.Permᴰ
use litefan.Schema.{ArchiveRow}
use litefan.Schema.WellFormed.{archive_key}
use litefan.Storage.{Pool, ReturnsRows}
use litefan.Consumer.Archives.{Restored, picks, restore_chunks}

delete_both :
    (id : ℕ) (xs ys : List ℕ) (rows : List ArchiveRow)
    → delete_where (picks id ys) (delete_where (picks id xs) rows)
      ≡ delete_where (picks id (xs ++ ys)) rows
delete_both id xs ys [] = refl
delete_both id xs ys (a ∷ rows) =
    ground (arith, exists_where-append (λ i. i == a.id) xs ys, delete_both id xs ys rows)

delete_nothing : (id : ℕ) (rows : List ArchiveRow) → delete_where (picks id []) rows ≡ rows
delete_nothing id [] = refl
delete_nothing id (a ∷ rows) = ground (arith, delete_nothing id rows)

-- Chunk by chunk, the loop deletes what one statement would.
pub restore_chunks-rows :
    (pool : Pool) (id : ℕ) (cs : List (List ℕ)) (rows : List ArchiveRow)
    → (restore_chunks pool id cs rows).rows ≡ delete_where (picks id (concat cs)) rows
unfolding restore_chunks
restore_chunks-rows pool id [] rows = sym (delete_nothing id rows)
restore_chunks-rows pool id (c ∷ cs) rows =
    restore_chunks-rows pool id cs (delete_where (picks id c) rows)
    ∙ delete_both id c (concat cs) rows

count_both :
    (id : ℕ) (xs ys : List ℕ) (rows : List ArchiveRow)
    → count_where (picks id (xs ++ ys)) rows
      ≡ count_where (picks id xs) rows + count_where (picks id ys) (delete_where (picks id xs) rows)
count_both id xs ys [] = refl
count_both id xs ys (a ∷ rows) =
    ground (arith, exists_where-append (λ i. i == a.id) xs ys, count_both id xs ys rows)

count_nothing : (id : ℕ) (rows : List ArchiveRow) → 0 ≡ count_where (picks id []) rows
count_nothing id [] = refl
count_nothing id (a ∷ rows) = ground (arith, count_nothing id rows)

-- Chunk by chunk, the loop returns one message ID for each archive that it deletes.
pub length-restore_chunks :
    (pool : Pool) (lawful : ReturnsRows pool) (id : ℕ) (cs : List (List ℕ)) (rows : List ArchiveRow)
    → length (restore_chunks pool id cs rows).message_ids ≡ count_where (picks id (concat cs)) rows
unfolding restore_chunks
length-restore_chunks pool lawful id [] rows = count_nothing id rows
length-restore_chunks pool lawful id (c ∷ cs) rows =
    let ids = map (λ (a : ArchiveRow). a.message_id) (select (picks id c) rows) in
    omega (
      arith,
      length-append (pool.returning_ids ids)
          (restore_chunks pool id cs (delete_where (picks id c) rows)).message_ids,
      length-Permᴰ (lawful.ids ids),
      length-map (λ (a : ArchiveRow). a.message_id) (select (picks id c) rows),
      length-restore_chunks pool lawful id cs (delete_where (picks id c) rows),
      count_both id c (concat cs) rows,
    )

pub record IsRestored (id : ℕ) (start : List ArchiveRow) (r : Restored) : Type 0 where
  pub distinct : Distinct (λ (m : ℕ). m) r.message_ids
  pub origin :
      (m : ℕ)
      → Among m r.message_ids
      → (a : ArchiveRow) × Among a start × (a.message_id ≡ m) × (a.consumer_id ≡ id)
  pub gone :
      (m : ℕ) (a : ArchiveRow) → Among m r.message_ids → Among a r.rows → (id, m) ≢ archive_key a
  pub kept : (a : ArchiveRow) → Among a r.rows → Among a start
  pub none_lost :
      (a : ArchiveRow) → Among a start → Among a r.rows ⊎ Among a.message_id r.message_ids

-- Archives of one consumer differ by their messages.
Distinct-picked :
    (id : ℕ) (rows : List ArchiveRow)
    → ((a : ArchiveRow) → Among a rows → a.consumer_id ≡ id)
    → Distinct archive_key rows
    → Distinct (λ (m : ℕ). m) (map (λ (a : ArchiveRow). a.message_id) rows)
Distinct-picked id [] own d = tt
Distinct-picked id (x ∷ xs) own d = (
  λ m n e.
      let r = Among-map_inv (λ (a : ArchiveRow). a.message_id) m xs n in
      d.0 r.0 r.1 (λ i. ((own x (inl refl) ∙ sym (own r.0 (inr r.1))) i, (e ∙ r.2) i)),
  Distinct-picked id xs (λ a n. own a (inr n)) d.1,
)

module _ (pool : Pool) (lawful : ReturnsRows pool) (id : ℕ) where
  -- The message IDs that one statement returns.
  abbrev returned : List ℕ → List ArchiveRow → List ℕ
  returned c rows =
      pool.returning_ids (map (λ (a : ArchiveRow). a.message_id) (select (picks id c) rows))

  law :
      (c : List ℕ) (rows : List ArchiveRow)
      → Permᴰ (returned c rows) (map (λ (a : ArchiveRow). a.message_id) (select (picks id c) rows))
  law c rows = lawful.ids (map (λ (a : ArchiveRow). a.message_id) (select (picks id c) rows))

  own : (c : List ℕ) (a : ArchiveRow) → picks id c a ≡ true → a.consumer_id ≡ id
  own c a t = ground arith

  returned-origin :
      (c : List ℕ) (rows : List ArchiveRow) (m : ℕ)
      → Among m (returned c rows)
      → (a : ArchiveRow) × Among a rows × (a.message_id ≡ m) × (picks id c a ≡ true)
  returned-origin c rows m n =
      let (a, k, e) =
        Among-map_inv (λ (a : ArchiveRow). a.message_id) m (select (picks id c) rows)
          (Among-Permᴰ m (law c rows) n) in
      let r = Among-select_inv (picks id c) a rows k in (a, r.0, sym e, r.1)

  returned-gone :
      (c : List ℕ) (rows : List ArchiveRow)
      → Distinct archive_key rows
      → (m : ℕ) (a : ArchiveRow) → Among m (returned c rows)
      → Among a (delete_where (picks id c) rows)
      → (id, m) ≢ archive_key a
  returned-gone c rows distinct m a n k e =
      let (x, among, same, picked) = returned-origin c rows m n in
      let r = Among-select_inv (λ y. not (picks id c y)) a rows k in
      let key : archive_key x ≡ archive_key a = (λ i. (own c x picked i, same i)) ∙ e in
      let one : x ≡ a = Distinct-eq archive_key rows x a distinct among r.0 key in
      let both : picks id c a ≡ true = ap (picks id c) (sym one) ∙ picked in cc (both, r.1)

  IsRestored-step :
      (c : List ℕ) (rows : List ArchiveRow) (rest : Restored)
      → Distinct archive_key rows
      → IsRestored id (delete_where (picks id c) rows) rest
      → IsRestored id rows
          (record { message_ids = returned c rows ++ rest.message_ids; rows = rest.rows })
  IsRestored-step c rows rest distinct ih = record {
    distinct =
        Distinct-append (λ (m : ℕ). m) (returned c rows) rest.message_ids
          (Distinct-Permᴰ (λ (m : ℕ). m) (Permᴰ.symm (law c rows))
            (Distinct-picked id (select (picks id c) rows)
              (λ a m. own c a (Among-select_inv (picks id c) a rows m).1)
              (Distinct-select archive_key (picks id c) rows distinct)))
          ih.distinct
          (λ m k n l e.
            let (a, among, same, mine) = ih.origin k l in
            returned-gone c rows distinct m a n among (λ i. (sym mine i, (e ∙ sym same) i)));
    origin = λ m n. elim (Among-append m (returned c rows) rest.message_ids n) [
      | inl k ↦
          let (a, among, same, picked) = returned-origin c rows m k in
          (a, among, same, own c a picked)
      | inr k ↦ let (a, among, same, mine) = ih.origin m k in (a, before a among, same, mine)
    ];
    gone = λ m a n k. elim (Among-append m (returned c rows) rest.message_ids n) [
      | inl l ↦ returned-gone c rows distinct m a l (ih.kept a k)
      | inr l ↦ ih.gone m a l k
    ];
    kept = λ a m. before a (ih.kept a m);
    none_lost = λ a m. elim (Bool-cases (picks id c a)) [
      | inl t ↦ inr (
          Among-append_left a.message_id (returned c rows) rest.message_ids (
            Among-Permᴰ a.message_id (Permᴰ.symm (law c rows)) (
              Among-map (λ (x : ArchiveRow). x.message_id) a (select (picks id c) rows)
                (Among-select (picks id c) a rows m t))))
      | inr f ↦
          elim (ih.none_lost a (Among-select (λ y. not (picks id c y)) a rows m (rw f refl))) [
            | inl k ↦ inl k
            | inr k ↦ inr (Among-append_right a.message_id (returned c rows) rest.message_ids k)
          ]
    ];
  }
    where
      before : (a : ArchiveRow) → Among a (delete_where (picks id c) rows) → Among a rows
      before a m = (Among-select_inv (λ y. not (picks id c y)) a rows m).0

  pub restore_chunks-IsRestored :
      (cs : List (List ℕ)) (rows : List ArchiveRow)
      → Distinct archive_key rows
      → IsRestored id rows (restore_chunks pool id cs rows)
  unfolding restore_chunks
  restore_chunks-IsRestored [] rows distinct = record {
    distinct = tt;
    origin = λ m n. elim n [ ];
    gone = λ m a n. elim n [ ];
    kept = λ a m. m;
    none_lost = λ a m. inl m;
  }
  restore_chunks-IsRestored (c ∷ cs) rows distinct =
      IsRestored-step c rows (restore_chunks pool id cs (delete_where (picks id c) rows)) distinct (
        restore_chunks-IsRestored cs (delete_where (picks id c) rows)
          (Distinct-select archive_key (λ a. not (picks id c a)) rows distinct))
