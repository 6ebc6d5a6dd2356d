-- ===== src/Store/Publish/Table.antt =====
-- The idempotency ledger through the transaction of a keyed batch: its table with the new IDs is
-- complete, and knows what publishing the messages one by one makes known.
use litefan.Prelude.{
  ℕ, ◌+◌, ◌/◌, ◌≤◌, ◌≡◌, refl, sym, ap, ◌∙◌, inl, inr, ◌⊎◌, not, ◌&&◌, Option, none, some, List, [],
  arith, bytes_eq, is_some, length, Among, Distinct, chunks, concat, concat-chunks, exists_where,
  Option-cases,
}
use litefan.Api.{Publish}
use litefan.Schema.{IdempotencyRow}
use litefan.Schema.WellFormed.{IsLedger}
use litefan.Storage.{max_sql_variables}
use litefan.Store.Publish.{
  Key, unique_keys, Ledger, read_ledger, ledger_get, is_open, update_for, fill_chunks, fill_ledger,
  known_id,
}
use litefan.Store.Publish.OneByOne.{
  Known, known_of, row_get, flatten, published_of, known_after, learned_of,
}
use litefan.Store.Publish.Keys.{or_else, Among-unique_keys}
use litefan.Store.Publish.Learned.{
  learned_of-unknown, learned_of-asked, learned_of-Distinct, learned_of-bounds, known_after_lem,
  learned-all,
}
use litefan.Store.Publish.Fill.{
  filled, refill, update_for-Among, update_for-some, ledger_get-fill_ledger, row_get-fill_chunks,
  Distinct-fill_chunks,
}
use litefan.Store.Publish.Seed.{
  row_key, unique_keys-Among, row_get-Among, row_get-some, claimed, row_get-claimed,
  known_of-claimed, claimed-either, Distinct-claimed, ledger_get-seed,
}

flatten-filled :
    (u b : Option ℕ) → (u ≡ none) ⊎ (b ≡ none) → flatten (or_else (filled u) (some b)) ≡ or_else b u
flatten-filled none none h = refl
flatten-filled none (some x) h = refl
flatten-filled (some x) none h = refl
flatten-filled (some x) (some y) (inl h) = cc h
flatten-filled (some x) (some y) (inr h) = cc h

flatten-refill :
    (u : Option ℕ) (o : Option (Option ℕ))
    → (u ≡ none) ⊎ (o ≡ some none)
    → flatten (refill u o) ≡ or_else (flatten o) u
flatten-refill none none h = refl
flatten-refill none (some none) h = refl
flatten-refill none (some (some x)) h = refl
flatten-refill (some x) o (inl h) = cc h
flatten-refill (some x) o (inr h) = rw h refl

known_id-flatten :
    (ledger : Ledger) (k : Key) → known_id ledger (some k) ≡ flatten (ledger_get k ledger)
unfolding known_id
known_id-flatten ledger k = elim (Option-cases (ledger_get k ledger)) [
  | inl e ↦ rw (e, known_id) refl
  | inr (v, e) ↦ rw (e, known_id) refl
]

refill-some :
    (id : ℕ) (o : Option (Option ℕ)) (v : Option ℕ) → refill (some id) o ≡ some v → v ≡ some id
refill-some id none v h = cc h
refill-some id (some w) v h = cc h

refill-kept : (o : Option (Option ℕ)) (v : Option ℕ) → refill none o ≡ some v → o ≡ some v
refill-kept none v h = cc h
refill-kept (some w) v h = h

flatten-some : (o : Option (Option ℕ)) (id : ℕ) → flatten o ≡ some id → o ≡ some (some id)
flatten-some none id h = cc h
flatten-some (some v) id h = ap some h

module _ (expires_at seq : ℕ) (rows : List IdempotencyRow) (ms : List Publish) where
  -- What was known, what is learned, and the tables and ledger in between.
  abbrev pub before : Known
  before = known_of rows

  abbrev pub news : List (Key × ℕ)
  news = learned_of before seq ms

  abbrev pub open_table : List IdempotencyRow
  open_table = claimed expires_at rows ms (max_sql_variables / 2)

  abbrev pub seed : Ledger
  seed = read_ledger open_table (chunks max_sql_variables (unique_keys ms))

  abbrev pub filled_table : List IdempotencyRow
  filled_table = fill_chunks open_table (chunks (max_sql_variables / 2) news)

  abbrev pub IsAsked : Key → Type 0
  IsAsked k = Among k (unique_keys ms)

  seed-eq : (k : Key) → IsAsked k → ledger_get k seed ≡ some (before k)
  seed-eq k n =
      ledger_get-seed expires_at rows ms (max_sql_variables / 2) max_sql_variables k (omega arith)
        (omega arith) n

  pub seed-Agrees :
      (k : Key)
      → IsAsked k
      → (is_open (ledger_get k seed) && not (exists_where (bytes_eq k) []))
        ≡ not (is_some (before k))
  seed-Agrees k n = elim (Option-cases (before k)) [
    | inl e ↦ let q = seed-eq k n in rw (q, e) refl
    | inr (id, e) ↦ let q = seed-eq k n in rw (q, e) refl
  ]

  fresh : (k : Key) (id : ℕ) → update_for k news ≡ some id → before k ≡ none
  fresh k id e = learned_of-unknown before seq ms (k, id) (update_for-Among k news id e)

  asked : (k : Key) (id : ℕ) → update_for k news ≡ some id → IsAsked k
  asked k id e =
      let (m, among, key) = learned_of-asked before seq ms (k, id) (update_for-Among k news id e) in
      Among-unique_keys ms m k among key

  -- The ledger with the new IDs knows of the keys of the batch what is known after it.
  pub filled_ledger-eq :
      (k : Key)
      → IsAsked k
      → known_id (fill_ledger news seed) (some k) ≡ known_after before seq ms k
  filled_ledger-eq k n =
      known_id-flatten (fill_ledger news seed) k
      ∙ ap flatten (ledger_get-fill_ledger k news seed (learned_of-Distinct before seq ms))
      ∙ ap (λ (x : Option (Option ℕ)). flatten (or_else (filled (update_for k news)) x))
          (seed-eq k n)
      ∙ flatten-filled (update_for k news) (before k) (elim (Option-cases (update_for k news)) [
        | inl e ↦ inl e
        | inr (id, e) ↦ inr (fresh k id e)
      ])
      ∙ sym (known_after_lem before seq ms k)

  chunked_news : concat (chunks (max_sql_variables / 2) news) ≡ news
  chunked_news = concat-chunks (max_sql_variables / 2) news (omega arith)

  row_get-filled_table :
      (k : Key) → row_get k filled_table ≡ refill (update_for k news) (row_get k open_table)
  row_get-filled_table k =
      row_get-fill_chunks k open_table (chunks (max_sql_variables / 2) news)
        (rw chunked_news (learned_of-Distinct before seq ms))
      ∙ ap (λ (us : List (Key × ℕ)). refill (update_for k us) (row_get k open_table)) chunked_news

  -- The table with the new IDs knows of every key what is known after the batch.
  pub filled_table-eq : (k : Key) → known_of filled_table k ≡ known_after before seq ms k
  filled_table-eq k =
      ap flatten (row_get-filled_table k)
      ∙ flatten-refill (update_for k news) (row_get k open_table)
          (elim (Option-cases (update_for k news)) [
            | inl e ↦ inl e
            | inr (id, e) ↦ inr (
                row_get-claimed expires_at rows ms (max_sql_variables / 2) k (omega arith)
                  (asked k id e)
                ∙ ap some (fresh k id e))
          ])
      ∙ ap (λ (x : Option ℕ). or_else x (update_for k news))
          (known_of-claimed expires_at rows ms (max_sql_variables / 2) k (omega arith))
      ∙ sym (known_after_lem before seq ms k)

  held_id :
      (k : Key) (v : Option ℕ)
      → IsLedger rows seq
      → row_get k rows ≡ some v
      → (id : ℕ) × (v ≡ some id) × (id ≤ seq)
  held_id k v l e =
      let (r, among, key, value) = row_get-Among k rows v e in
      let (id, complete, le) = l.complete r among in (id, sym value ∙ complete, le)

  open_table-known :
      (k : Key) (v : Option ℕ)
      → IsLedger rows seq
      → update_for k news ≡ none
      → row_get k open_table ≡ some v
      → (id : ℕ) × (v ≡ some id) × (id ≤ seq)
  open_table-known k v l u e =
      elim (claimed-either expires_at rows ms (max_sql_variables / 2) k v (omega arith) e) [
        | inr r ↦ held_id k v l r
        | inl n ↦
            let (m, among, key) = unique_keys-Among ms k n in
            elim (learned-all before seq ms m k among key) [
              | inl (id, b) ↦
                  let (i, q, le) = held_id k (some id) l (flatten-some (row_get k rows) id b) in
                  let w =
                    row_get-claimed expires_at rows ms (max_sql_variables / 2) k (omega arith) n in
                  (i, cc (w, e, b, q), le)
              | inr (id, a) ↦
                  absurd
                    (cc (update_for-some news (k, id) (learned_of-Distinct before seq ms) a, u))
            ]
      ]

  -- Every row of the table has the ID of a message that is published.
  filled_table-known :
      (k : Key) (v : Option ℕ)
      → IsLedger rows seq
      → row_get k filled_table ≡ some v
      → (id : ℕ) × (v ≡ some id) × (id ≤ seq + length (published_of before seq ms))
  filled_table-known k v l e =
      let q : refill (update_for k news) (row_get k open_table) ≡ some v =
        sym (row_get-filled_table k) ∙ e in
      elim (Option-cases (update_for k news)) [
        | inr (id, u) ↦ (
          id,
          refill-some id (row_get k open_table) v (rw u at q),
          learned_of-bounds before seq ms (k, id) (update_for-Among k news id u),
        )
        | inl u ↦
            let (id, r, le) =
              open_table-known k v l u (refill-kept (row_get k open_table) v (rw u at q)) in
            (id, r, omega (arith, le))
      ]

  pub filled_table-IsLedger :
      IsLedger rows seq → IsLedger filled_table (seq + length (published_of before seq ms))
  filled_table-IsLedger l =
      let d : Distinct row_key filled_table =
        Distinct-fill_chunks open_table _
          (Distinct-claimed expires_at rows ms (max_sql_variables / 2) (omega arith) l.distinct) in
      record {
        distinct = d;
        complete = λ r n. filled_table-known r.key r.message_id l (row_get-some filled_table r d n);
      }
