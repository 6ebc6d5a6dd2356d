-- ===== src/Store/Publish/Seed.antt =====
-- The ledger that a keyed batch of `publish_batch` starts from: the rows of the table, and an open
-- row for each key of the batch that the table does not have.
use litefan.Prelude.{
  ℕ, ◌<◌, ◌≡◌, refl, sym, ap, ◌∙◌, subst, inl, inr, ◌⊎◌, Bool, true, false, not, Option, none, some,
  List, [], ◌∷◌, ◌++◌, map, if◌then◌else◌, bytes_eq, bytes_eq_iff, is_some, Among, Among-select,
  Among-select_inv, Among-map_inv, Distinct, Distinct-append, Distinct-select, Distinct-of_map,
  chunks, concat, concat-chunks, exists_where, exists_where-true, exists_where-Among, Bool-cases,
  Option-cases,
}
use litefan.Api.{Publish}
use litefan.Schema.{IdempotencyRow}
use litefan.Store.Publish.{
  Key, has_key, unique_keys, claim_keys, claim_key_chunks, read_ledger, ledger_get,
}
use litefan.Store.Publish.OneByOne.{known_of, row_get, flatten}
use litefan.Store.Publish.Keys.{
  id_key, bytes_eq_refl, open_row, unheld, claim_keys-append, claim_key_chunks-concat, or_else,
  Distinct-unique_keys, ledger_get-read_ledger,
}

abbrev pub row_key : IdempotencyRow → Key
row_key r = r.key

pub unique_keys-Among :
    (ms : List Publish) (k : Key)
    → Among k (unique_keys ms)
    → (m : Publish) × Among m ms × (m.idempotency_key ≡ some k)
unfolding unique_keys
unique_keys-Among [] k n = elim n [ ]
unique_keys-Among (p ∷ ps) k n = elim (Option-cases p.idempotency_key) [
  | inl e ↦ let r = unique_keys-Among ps k (rw e at n) in (r.0, inr r.1, r.2)
  | inr (j, e) ↦
      elim (rw e at n) as (λ x. (m : Publish) × Among m (p ∷ ps) × (m.idempotency_key ≡ some k)) [
        | inl same ↦ (p, inl refl, e ∙ ap some (sym same))
        | inr rest ↦
            let kept = Among-select_inv (λ (x : Key). not (bytes_eq j x)) k (unique_keys ps) rest in
            let r = unique_keys-Among ps k kept.0 in (r.0, inr r.1, r.2)
      ]
]

pub row_get-append :
    (k : Key) (xs ys : List IdempotencyRow)
    → row_get k (xs ++ ys) ≡ or_else (row_get k xs) (row_get k ys)
unfolding row_get
row_get-append k [] ys = refl
row_get-append k (r ∷ xs) ys = elim (Bool-cases (bytes_eq r.key k)) [
  | inl t ↦ rw t refl
  | inr f ↦ rw f (row_get-append k xs ys)
]

-- The first row of a key, where there is one.
pub row_get-Among :
    (k : Key) (rows : List IdempotencyRow) (v : Option ℕ)
    → row_get k rows ≡ some v
    → (r : IdempotencyRow) × Among r rows × (r.key ≡ k) × (r.message_id ≡ v)
unfolding row_get
row_get-Among k [] v h = absurd (cc)
row_get-Among k (r ∷ rows) v h = elim (Bool-cases (bytes_eq r.key k)) [
  | inl t ↦ (r, inl refl, (bytes_eq_iff r.key k).0 t, cc (rw t at h))
  | inr f ↦ let q = row_get-Among k rows v (rw f at h) in (q.0, inr q.1, q.2, q.3)
]

pub row_get-some :
    (rows : List IdempotencyRow) (r : IdempotencyRow)
    → Distinct row_key rows
    → Among r rows
    → row_get r.key rows ≡ some r.message_id
unfolding row_get
row_get-some [] r d n = elim n [ ]
row_get-some (x ∷ rows) r d (inl e) =
    let t : bytes_eq x.key r.key ≡ true = (bytes_eq_iff x.key r.key).1 (ap row_key (sym e)) in
    rw t (ap (λ (y : IdempotencyRow). some y.message_id) (sym e))
row_get-some (x ∷ rows) r d (inr n) = elim (Bool-cases (bytes_eq x.key r.key)) [
  | inl t ↦ absurd (d.0 r n ((bytes_eq_iff x.key r.key).0 t))
  | inr f ↦ rw f (row_get-some rows r d.1 n)
]

row_get-has_key :
    (k : Key) (rows : List IdempotencyRow)
    → exists_where (has_key k) rows ≡ is_some (row_get k rows)
unfolding row_get
row_get-has_key k [] = refl
row_get-has_key k (r ∷ rows) = elim (Bool-cases (bytes_eq r.key k)) [
  | inl t ↦ rw t refl
  | inr f ↦ rw f (row_get-has_key k rows)
]

row_get-open_rows :
    (k : Key) (expires_at : ℕ) (keys : List Key)
    → row_get k (map (open_row expires_at) keys)
      ≡ (if exists_where (bytes_eq k) keys then some none else none)
unfolding row_get
row_get-open_rows k expires_at [] = refl
row_get-open_rows k expires_at (j ∷ keys) = elim (Bool-cases (bytes_eq j k)) [
  | inl t ↦ let q = (bytes_eq_iff k j).1 (sym ((bytes_eq_iff j k).0 t)) in rw (t, q) refl
  | inr f ↦ elim (Bool-cases (bytes_eq k j)) [
    | inl t ↦ let q = (bytes_eq_iff j k).1 (sym ((bytes_eq_iff k j).0 t)) in cc (q, f)
    | inr g ↦ rw (f, g) (row_get-open_rows k expires_at keys)
  ]
]

module _ (expires_at : ℕ) (rows : List IdempotencyRow) (ms : List Publish) (size : ℕ) where
  -- The table after `claim_key_chunks`.
  abbrev pub claimed : List IdempotencyRow
  claimed = claim_key_chunks expires_at rows (chunks size (unique_keys ms))

  opened : List IdempotencyRow
  opened = map (open_row expires_at) (unheld rows (unique_keys ms))

  claimed_lem : 0 < size → claimed ≡ rows ++ opened
  unfolding opened
  claimed_lem h =
      claim_key_chunks-concat expires_at rows (chunks size (unique_keys ms))
      ∙ ap (claim_keys expires_at rows) (concat-chunks size (unique_keys ms) h)
      ∙ claim_keys-append expires_at rows (unique_keys ms) (Distinct-unique_keys ms)

  -- Each key of the batch has a row, and says what was known of it before.
  pub row_get-claimed :
      (k : Key) → 0 < size → Among k (unique_keys ms) → row_get k claimed ≡ some (known_of rows k)
  unfolding opened
  row_get-claimed k h n =
      ap (row_get k) (claimed_lem h)
      ∙ row_get-append k rows opened
      ∙ elim (Option-cases (row_get k rows)) [
        | inr (v, e) ↦ rw e refl
        | inl e ↦
            let fresh : exists_where (has_key k) rows ≡ false =
              row_get-has_key k rows ∙ ap is_some e in
            let mine : exists_where (bytes_eq k) (unheld rows (unique_keys ms)) ≡ true =
              exists_where-true (bytes_eq k) k (unheld rows (unique_keys ms))
                (Among-select (λ (x : Key). not (exists_where (has_key x) rows)) k (unique_keys ms)
                  n (rw fresh refl))
                (bytes_eq_refl k) in
            let at_open = row_get-open_rows k expires_at (unheld rows (unique_keys ms)) in
            rw (e, at_open, mine) refl
      ]

  -- No key is known by the open rows alone.
  pub known_of-claimed : (k : Key) → 0 < size → known_of claimed k ≡ known_of rows k
  unfolding opened
  known_of-claimed k h =
      ap (λ (x : List IdempotencyRow). known_of x k) (claimed_lem h)
      ∙ ap flatten (row_get-append k rows opened)
      ∙ ap (λ (x : Option (Option ℕ)). flatten (or_else (row_get k rows) x))
          (row_get-open_rows k expires_at (unheld rows (unique_keys ms)))
      ∙ flatten-open (row_get k rows) (exists_where (bytes_eq k) (unheld rows (unique_keys ms)))
    where
      flatten-open :
          (o : Option (Option ℕ)) (b : Bool)
          → flatten (or_else o (if b then some none else none)) ≡ flatten o
      flatten-open (some v) b = refl
      flatten-open none true = refl
      flatten-open none false = refl

  -- A row of the table is of a key of the batch, or was there before.
  pub claimed-either :
      (k : Key) (v : Option ℕ)
      → 0 < size
      → row_get k claimed ≡ some v
      → Among k (unique_keys ms) ⊎ (row_get k rows ≡ some v)
  unfolding opened
  claimed-either k v h e =
      let q : or_else (row_get k rows) (row_get k opened) ≡ some v =
        sym (row_get-append k rows opened) ∙ ap (row_get k) (sym (claimed_lem h)) ∙ e in
      elim (Option-cases (row_get k rows)) [
        | inr (u, r) ↦ inr (r ∙ cc (rw r at q))
        | inl r ↦ elim (Bool-cases (exists_where (bytes_eq k) (unheld rows (unique_keys ms)))) [
          | inl t ↦
              let (j, among, same) = exists_where-Among (bytes_eq k) _ t in
              let kept =
                Among-select_inv (λ (x : Key). not (exists_where (has_key x) rows)) j
                  (unique_keys ms) among in
              inl (subst (λ x. Among x (unique_keys ms)) (sym ((bytes_eq_iff k j).0 same)) kept.0)
          | inr f ↦
              let at_open = row_get-open_rows k expires_at (unheld rows (unique_keys ms)) in
              cc (rw (r, at_open, f) at q)
        ]
      ]

  pub Distinct-claimed : 0 < size → Distinct row_key rows → Distinct row_key claimed
  unfolding opened
  Distinct-claimed h d = rw (claimed_lem h) (
      Distinct-append row_key rows opened d
        (Distinct-of_map id_key row_key (open_row expires_at) _ (λ k. refl)
          (Distinct-select id_key _ (unique_keys ms) (Distinct-unique_keys ms)))
        (λ a b m n e.
          let (k, among, q) = Among-map_inv (open_row expires_at) b _ n in
          let fresh =
            (Among-select_inv (λ (x : Key). not (exists_where (has_key x) rows)) k (unique_keys ms)
              among).1 in
          let held =
            exists_where-true (has_key k) a rows m ((bytes_eq_iff a.key k).1 (e ∙ ap row_key q)) in
          cc (rw held at fresh)))

  -- The ledger that is read back.
  pub ledger_get-seed :
      (width : ℕ) (k : Key)
      → 0 < size
      → 0 < width
      → Among k (unique_keys ms)
      → ledger_get k (read_ledger claimed (chunks width (unique_keys ms))) ≡ some (known_of rows k)
  ledger_get-seed width k h g n =
      let mine : exists_where (bytes_eq k) (concat (chunks width (unique_keys ms))) ≡ true =
        rw (concat-chunks width (unique_keys ms) g)
          (exists_where-true (bytes_eq k) k (unique_keys ms) n (bytes_eq_refl k)) in
      ledger_get-read_ledger k claimed (chunks width (unique_keys ms))
      ∙ rw mine (row_get-claimed k h n)
