-- ===== src/Store/Publish/Keys.antt =====
-- The keys of a batch, claimed in the ledger and read back.
use litefan.Prelude.{
  exists_where-append, ℕ, ◌≡◌, ◌≢◌, refl, sym, ap, ◌∙◌, inl, inr, Bool, true, false, not, Option,
  none, some, List, [], ◌∷◌, ◌++◌, map, arith, if◌then◌else◌, bytes_eq, bytes_eq_iff, Among,
  Among-select, Among-select_inv, Distinct, Distinct-select, concat, select, exists_where,
  Bool-cases, Option-cases,
}
use mathlib.Core.List.{append_assoc, append-nil}
use litefan.Api.{Publish}
use litefan.Schema.{IdempotencyRow}
use litefan.Store.Publish.{
  Key, has_key, unique_keys, claim_key, claim_keys, claim_key_chunks, Ledger, ledger_entry,
  read_ledger, ledger_get,
}
use litefan.Store.Publish.OneByOne.{row_get}

abbrev pub id_key : Key → Key
id_key k = k

pub bytes_eq_refl : (k : Key) → bytes_eq k k ≡ true
bytes_eq_refl k = (bytes_eq_iff k k).1 refl

pub bytes_eq-false : (j k : Key) → j ≢ k → bytes_eq j k ≡ false
bytes_eq-false j k h = elim (Bool-cases (bytes_eq j k)) [
  | inl t ↦ absurd (h ((bytes_eq_iff j k).0 t))
  | inr f ↦ f
]

-- Every key of the batch is among the unique keys, once.
pub Among-unique_keys :
    (ms : List Publish) (m : Publish) (k : Key)
    → Among m ms
    → m.idempotency_key ≡ some k
    → Among k (unique_keys ms)
unfolding unique_keys
Among-unique_keys [] m k n e = elim n [ ]
Among-unique_keys (p ∷ ps) m k (inl same) e =
    let q : p.idempotency_key ≡ some k = ap (λ (x : Publish). x.idempotency_key) (sym same) ∙ e in
    rw q (inl refl)
Among-unique_keys (p ∷ ps) m k (inr n) e =
    let rest = Among-unique_keys ps m k n e in
    elim (Option-cases p.idempotency_key) [
      | inl q ↦ rw q rest
      | inr (j, q) ↦ elim (Bool-cases (bytes_eq j k)) [
        | inl t ↦ rw q (inl (sym ((bytes_eq_iff j k).0 t)))
        | inr f ↦ rw q (
            inr
              (Among-select (λ (x : Key). not (bytes_eq j x)) k (unique_keys ps) rest (rw f refl)))
      ]
    ]

pub Distinct-unique_keys : (ms : List Publish) → Distinct id_key (unique_keys ms)
unfolding unique_keys
Distinct-unique_keys [] = tt
Distinct-unique_keys (p ∷ ps) = elim (Option-cases p.idempotency_key) [
  | inl q ↦ rw q (Distinct-unique_keys ps)
  | inr (j, q) ↦ rw q (
    (λ k n e.
        let r = Among-select_inv (λ (x : Key). not (bytes_eq j x)) k (unique_keys ps) n in
        cc ((bytes_eq_iff j k).1 e, r.1)),
    Distinct-select id_key (λ (x : Key). not (bytes_eq j x)) (unique_keys ps)
        (Distinct-unique_keys ps),
  )
]

abbrev pub open_row : ℕ → Key → IdempotencyRow
open_row expires_at key = record { key = key; message_id = none; expires_at = expires_at }

-- The keys that the ledger does not have.
abbrev pub unheld : List IdempotencyRow → List Key → List Key
unheld rows keys = select (λ (k : Key). not (exists_where (has_key k) rows)) keys

exists-append_one :
    (k j : Key) (expires_at : ℕ) (rows : List IdempotencyRow)
    → k ≢ j
    → exists_where (has_key j) (rows ++ open_row expires_at k ∷ []) ≡ exists_where (has_key j) rows
exists-append_one k j expires_at [] h = rw (bytes_eq-false k j h) refl
exists-append_one k j expires_at (r ∷ rows) h =
    ground (arith, exists-append_one k j expires_at rows h)

unheld-append_one :
    (k : Key) (expires_at : ℕ) (rows : List IdempotencyRow) (keys : List Key)
    → ((j : Key) → Among j keys → k ≢ j)
    → unheld (rows ++ open_row expires_at k ∷ []) keys ≡ unheld rows keys
unheld-append_one k expires_at rows [] h = refl
unheld-append_one k expires_at rows (j ∷ keys) h =
    rw
      (
        exists-append_one k j expires_at rows (h j (inl refl)),
        unheld-append_one k expires_at rows keys (λ x m. h x (inr m)),
      )
      refl

-- ON CONFLICT DO NOTHING: a row for each key that the ledger did not have.
pub claim_keys-append :
    (expires_at : ℕ) (rows : List IdempotencyRow) (keys : List Key)
    → Distinct id_key keys
    → claim_keys expires_at rows keys ≡ rows ++ map (open_row expires_at) (unheld rows keys)
unfolding claim_keys
claim_keys-append expires_at rows [] d = sym (append-nil rows)
claim_keys-append expires_at rows (k ∷ keys) d = elim (Bool-cases (exists_where (has_key k) rows)) [
  | inl t ↦ rw t (claim_keys-append expires_at rows keys d.1)
  | inr f ↦ rw f (
      claim_keys-append expires_at (rows ++ open_row expires_at k ∷ []) keys d.1
      ∙ rw (unheld-append_one k expires_at rows keys d.0) (
          append_assoc rows (open_row expires_at k ∷ [])
            (map (open_row expires_at) (unheld rows keys))))
]

claim_keys-both :
    (expires_at : ℕ) (rows : List IdempotencyRow) (xs ys : List Key)
    → claim_keys expires_at (claim_keys expires_at rows xs) ys
      ≡ claim_keys expires_at rows (xs ++ ys)
unfolding claim_keys
claim_keys-both expires_at rows [] ys = refl
claim_keys-both expires_at rows (x ∷ xs) ys =
    claim_keys-both expires_at (claim_key expires_at rows x) xs ys

pub claim_key_chunks-concat :
    (expires_at : ℕ) (rows : List IdempotencyRow) (cs : List (List Key))
    → claim_key_chunks expires_at rows cs ≡ claim_keys expires_at rows (concat cs)
unfolding claim_key_chunks
claim_key_chunks-concat expires_at rows [] = refl
claim_key_chunks-concat expires_at rows (c ∷ cs) =
    claim_key_chunks-concat expires_at (claim_keys expires_at rows c) cs
    ∙ claim_keys-both expires_at rows c (concat cs)

-- The first of two readings that knows the key.
abbrev pub or_else {ℓ} : {A : Type ℓ} → Option A → Option A → Option A
or_else none b = b
or_else (some a) b = some a

ledger_get-append :
    (k : Key) (xs ys : Ledger)
    → ledger_get k (xs ++ ys) ≡ or_else (ledger_get k xs) (ledger_get k ys)
unfolding ledger_get
ledger_get-append k [] ys = refl
ledger_get-append k ((j, v) ∷ xs) ys = elim (Bool-cases (bytes_eq j k)) [
  | inl t ↦ rw t refl
  | inr f ↦ rw f (ledger_get-append k xs ys)
]

ledger_get-select :
    (k : Key) (c : List Key) (rows : List IdempotencyRow)
    → exists_where (bytes_eq k) c ≡ true
    → ledger_get k
        (map ledger_entry (select (λ (r : IdempotencyRow). exists_where (bytes_eq r.key) c) rows))
      ≡ row_get k rows
unfolding ledger_get row_get
ledger_get-select k c [] h = refl
ledger_get-select k c (r ∷ rows) h = elim (Bool-cases (bytes_eq r.key k)) [
  | inl t ↦
      let e : exists_where (bytes_eq r.key) c ≡ true =
        ap (λ (x : Key). exists_where (bytes_eq x) c) ((bytes_eq_iff r.key k).0 t) ∙ h in
      rw (e, t) refl
  | inr f ↦ elim (Bool-cases (exists_where (bytes_eq r.key) c)) [
    | inl e ↦ rw (e, f) (ledger_get-select k c rows h)
    | inr e ↦ rw (e, f) (ledger_get-select k c rows h)
  ]
]

ledger_get-other :
    (k : Key) (c : List Key) (rows : List IdempotencyRow)
    → exists_where (bytes_eq k) c ≡ false
    → ledger_get k
        (map ledger_entry (select (λ (r : IdempotencyRow). exists_where (bytes_eq r.key) c) rows))
      ≡ none
unfolding ledger_get
ledger_get-other k c [] h = refl
ledger_get-other k c (r ∷ rows) h = elim (Bool-cases (bytes_eq r.key k)) [
  | inl t ↦
      let e : exists_where (bytes_eq r.key) c ≡ false =
        ap (λ (x : Key). exists_where (bytes_eq x) c) ((bytes_eq_iff r.key k).0 t) ∙ h in
      rw e (ledger_get-other k c rows h)
  | inr f ↦ elim (Bool-cases (exists_where (bytes_eq r.key) c)) [
    | inl e ↦ rw (e, f) (ledger_get-other k c rows h)
    | inr e ↦ rw e (ledger_get-other k c rows h)
  ]
]

or_else_branch {ℓ} : {A : Type ℓ} (b : Bool) (o : Option A) → or_else o (if b then o else none) ≡ o
or_else_branch b (some a) = refl
or_else_branch true none = refl
or_else_branch false none = refl

-- The ledger read chunk by chunk gives the rows of the table for the keys that were asked for.
pub ledger_get-read_ledger :
    (k : Key) (rows : List IdempotencyRow) (cs : List (List Key))
    → ledger_get k (read_ledger rows cs)
      ≡ (if exists_where (bytes_eq k) (concat cs) then row_get k rows else none)
unfolding read_ledger ledger_get
ledger_get-read_ledger k rows [] = refl
ledger_get-read_ledger k rows (c ∷ cs) =
    let both =
      ledger_get-append k
        (map ledger_entry (select (λ (r : IdempotencyRow). exists_where (bytes_eq r.key) c) rows))
        (read_ledger rows cs) in
    elim (Bool-cases (exists_where (bytes_eq k) c)) [
      | inl t ↦
          both
          ∙ ◌∙◌ {b = or_else (row_get k rows) (ledger_get k (read_ledger rows cs))}
              (ap (λ (x : Option (Option ℕ)). or_else x (ledger_get k (read_ledger rows cs)))
                (ledger_get-select k c rows t))
              (rw
                (
                  ledger_get-read_ledger k rows cs,
                  exists_where-append (bytes_eq k) c (concat cs),
                  t,
                )
                (or_else_branch (exists_where (bytes_eq k) (concat cs)) (row_get k rows)))
      | inr f ↦
          both
          ∙ ◌∙◌ {b = ledger_get k (read_ledger rows cs)}
              (ap (λ (x : Option (Option ℕ)). or_else x (ledger_get k (read_ledger rows cs)))
                (ledger_get-other k c rows f))
              (rw
                (
                  ledger_get-read_ledger k rows cs,
                  exists_where-append (bytes_eq k) c (concat cs),
                  f,
                )
                refl)
    ]
