-- ===== src/Store/Publish/Fill.antt =====
-- The IDs of the published messages, written into the ledger of `publish_batch` and into its table.
use litefan.Prelude.{
  ℕ, ◌≡◌, ◌≢◌, refl, sym, ap, ◌∙◌, inl, inr, ◌⊎◌, true, Option, none, some, List, [], ◌∷◌, ◌++◌,
  arith, if◌then◌else◌, bytes_eq, bytes_eq_iff, is_some, Among, Among-append_right, Distinct,
  Distinct-map, Distinct-right, concat, map, update_where, exists_where, Bool-cases, Option-cases,
}
use litefan.Schema.{IdempotencyRow}
use litefan.Store.Publish.{Key, Ledger, ledger_get, update_for, fill_chunks, fill_ledger}
use litefan.Store.Publish.OneByOne.{row_get}
use litefan.Store.Publish.Keys.{or_else}
use litefan.Store.Publish.Learned.{update_key}

abbrev pub filled : Option ℕ → Option (Option ℕ)
filled none = none
filled (some id) = some (some id)

abbrev pub refill : Option ℕ → Option (Option ℕ) → Option (Option ℕ)
refill u none = none
refill u (some v) = some (or_else u v)

pub update_for-Among :
    (k : Key) (us : List (Key × ℕ)) (id : ℕ) → update_for k us ≡ some id → Among (k, id) us
unfolding update_for
update_for-Among k [] id h = cc h
update_for-Among k ((j, i) ∷ us) id h = elim (Bool-cases (bytes_eq j k)) [
  | inl t ↦
      let a : k ≡ j = sym ((bytes_eq_iff j k).0 t) in
      let b : i ≡ id = cc (rw t at h) in inl (λ x. (a x, (sym b) x))
  | inr f ↦ inr (update_for-Among k us id (rw f at h))
]

update_for-absent :
    (k : Key) (us : List (Key × ℕ))
    → ((u : Key × ℕ) → Among u us → k ≢ u.0)
    → update_for k us ≡ none
update_for-absent k us h = elim (Option-cases (update_for k us)) [
  | inl e ↦ e
  | inr (id, e) ↦ absurd (h (k, id) (update_for-Among k us id e) refl)
]

pub update_for-some :
    (us : List (Key × ℕ)) (u : Key × ℕ)
    → Distinct update_key us
    → Among u us
    → update_for u.0 us ≡ some u.1
unfolding update_for
update_for-some [] u d n = elim n [ ]
update_for-some (x ∷ us) u d (inl e) =
    let t : bytes_eq x.0 u.0 ≡ true = (bytes_eq_iff x.0 u.0).1 (ap update_key (sym e)) in
    rw t (ap (λ (y : Key × ℕ). some y.1) (sym e))
update_for-some (x ∷ us) u d (inr n) = elim (Bool-cases (bytes_eq x.0 u.0)) [
  | inl t ↦ absurd (d.0 u n ((bytes_eq_iff x.0 u.0).0 t))
  | inr f ↦ rw f (update_for-some us u d.1 n)
]

pub ledger_get-fill_ledger :
    (k : Key) (us : List (Key × ℕ)) (ledger : Ledger)
    → Distinct update_key us
    → ledger_get k (fill_ledger us ledger)
      ≡ or_else (filled (update_for k us)) (ledger_get k ledger)
unfolding fill_ledger update_for ledger_get
ledger_get-fill_ledger k [] ledger d = refl
ledger_get-fill_ledger k ((j, id) ∷ us) ledger d =
    let rest = ledger_get-fill_ledger k us ((j, some id) ∷ ledger) d.1 in
    elim (Bool-cases (bytes_eq j k)) [
      | inl t ↦
          let q : update_for k us ≡ none =
            ap (λ x. update_for x us) (sym ((bytes_eq_iff j k).0 t)) ∙ update_for-absent j us d.0 in
          rest ∙ rw (q, t) refl
      | inr f ↦ rest ∙ rw f refl
    ]

exists-update_for :
    (k : Key) (us : List (Key × ℕ))
    → exists_where (λ (u : Key × ℕ). bytes_eq u.0 k) us ≡ is_some (update_for k us)
unfolding update_for
exists-update_for k [] = refl
exists-update_for k ((j, id) ∷ us) = elim (Bool-cases (bytes_eq j k)) [
  | inl t ↦ rw t refl
  | inr f ↦ rw f (exists-update_for k us)
]

-- The row of a key after one UPDATE.
abbrev fill_row : List (Key × ℕ) → IdempotencyRow → IdempotencyRow
fill_row c row =
    if exists_where (λ (u : Key × ℕ). bytes_eq u.0 row.key) c
    then record row { message_id = update_for row.key c }
    else row

fill_row-key : (c : List (Key × ℕ)) (row : IdempotencyRow) → (fill_row c row).key ≡ row.key
fill_row-key c row = ground arith

fill_row-id :
    (c : List (Key × ℕ)) (row : IdempotencyRow)
    → (fill_row c row).message_id ≡ or_else (update_for row.key c) row.message_id
fill_row-id c row = elim (Option-cases (update_for row.key c)) [
  | inl e ↦ let q = exists-update_for row.key c in rw (q, e) refl
  | inr (id, e) ↦ let q = exists-update_for row.key c in rw (q, e) refl
]

row_get-update :
    (k : Key) (c : List (Key × ℕ)) (rows : List IdempotencyRow)
    → row_get k (
        update_where
          (λ (row : IdempotencyRow). exists_where (λ (u : Key × ℕ). bytes_eq u.0 row.key) c)
          (λ row. record row { message_id = update_for row.key c })
          rows)
      ≡ refill (update_for k c) (row_get k rows)
unfolding row_get
row_get-update k c [] = refl
row_get-update k c (row ∷ rows) = elim (Bool-cases (bytes_eq row.key k)) [
  | inl t ↦
      let q : row.key ≡ k = (bytes_eq_iff row.key k).0 t in
      rw (fill_row-key c row, t, fill_row-id c row)
        (ap (λ x. some (or_else (update_for x c) row.message_id)) q)
  | inr f ↦ rw (fill_row-key c row, f) (row_get-update k c rows)
]

update_for-append :
    (k : Key) (xs ys : List (Key × ℕ))
    → update_for k (xs ++ ys) ≡ or_else (update_for k xs) (update_for k ys)
unfolding update_for
update_for-append k [] ys = refl
update_for-append k ((j, id) ∷ xs) ys = elim (Bool-cases (bytes_eq j k)) [
  | inl t ↦ rw t refl
  | inr f ↦ rw f (update_for-append k xs ys)
]

refill-none : (o : Option (Option ℕ)) → o ≡ refill none o
refill-none none = refl
refill-none (some v) = refl

refill-both :
    (a b : Option ℕ) (o : Option (Option ℕ))
    → (a ≡ none) ⊎ (b ≡ none)
    → refill b (refill a o) ≡ refill (or_else a b) o
refill-both a b none h = refl
refill-both none b (some v) h = refl
refill-both (some x) none (some v) h = refl
refill-both (some x) (some y) (some v) (inl h) = cc h
refill-both (some x) (some y) (some v) (inr h) = cc h

-- A key is updated in one of two parts at most.
apart :
    (k : Key) (xs ys : List (Key × ℕ))
    → Distinct update_key (xs ++ ys)
    → (update_for k xs ≡ none) ⊎ (update_for k ys ≡ none)
unfolding update_for
apart k [] ys d = inl refl
apart k ((j, id) ∷ xs) ys d = elim (Bool-cases (bytes_eq j k)) [
  | inl t ↦
      let e : j ≡ k = (bytes_eq_iff j k).0 t in
      inr (update_for-absent k ys (λ u n q. d.0 u (Among-append_right u xs ys n) (e ∙ q)))
  | inr f ↦ rw f (apart k xs ys d.1)
]

pub row_get-fill_chunks :
    (k : Key) (rows : List IdempotencyRow) (cs : List (List (Key × ℕ)))
    → Distinct update_key (concat cs)
    → row_get k (fill_chunks rows cs) ≡ refill (update_for k (concat cs)) (row_get k rows)
unfolding fill_chunks
row_get-fill_chunks k rows [] d = refill-none (row_get k rows)
row_get-fill_chunks k rows (c ∷ cs) d =
    row_get-fill_chunks k (map (fill_row c) rows) cs (Distinct-right update_key c (concat cs) d)
    ∙ ap (refill (update_for k (concat cs))) (row_get-update k c rows)
    ∙ refill-both (update_for k c) (update_for k (concat cs)) (row_get k rows)
        (apart k c (concat cs) d)
    ∙ ap (λ (u : Option ℕ). refill u (row_get k rows)) (sym (update_for-append k c (concat cs)))

pub Distinct-fill_chunks :
    (rows : List IdempotencyRow) (cs : List (List (Key × ℕ)))
    → Distinct (λ (r : IdempotencyRow). r.key) rows
    → Distinct (λ (r : IdempotencyRow). r.key) (fill_chunks rows cs)
unfolding fill_chunks
Distinct-fill_chunks rows [] d = d
Distinct-fill_chunks rows (c ∷ cs) d =
    Distinct-fill_chunks (map (fill_row c) rows) cs
      (Distinct-map (λ (r : IdempotencyRow). r.key) (fill_row c) rows (fill_row-key c) d)
