-- ===== src/Storage/Totals.antt =====
-- What `LiteFan::snapshot` shows of a well-formed database: its totals count each row once.
use litefan.Prelude.{
  ℕ, ◌+◌, ◌≡◌, ◌≢◌, refl, sym, ap, ◌∙◌, inl, inr, true, List, [], ◌∷◌, arith, ltb, ◌==◌, Among,
  Distinct, select, count_where, length, Bool-cases, if◌then◌else◌,
}
use litefan.Error.{Result, ok, ◌>>=◌, Result-cases}
use litefan.Error.Ensures.{Ensures-ok}
use litefan.Api.{ConsumerSnapshot, StoreSnapshot}
use litefan.Time.{u64_mod, SystemTime, now_ms}
use litefan.Schema.{Database, ConsumerRow, ArchiveRow}
use litefan.Schema.WellFormed.{WellFormed, Scanned}
use litefan.Store.{State}
use litefan.Storage.Snapshots.{
  snapshots_of, fetch_consumer_snapshots, store_snapshot, order_by_name, insert_named, total_of,
  count_from_row,
}
use litefan.Storage.Counts.{snapshot_of-IsSnapshot}

abbrev pub sum_of {ℓ} : {A : Type ℓ} → (A → ℕ) → List A → ℕ
sum_of f [] = 0
sum_of f (x ∷ xs) = f x + sum_of f xs

-- The counter never wraps: it fails, or it is the sum.
total_of-sum :
    (counter : ConsumerSnapshot → ℕ) (total : ℕ) (snaps : List ConsumerSnapshot) (n : ℕ)
    → total_of counter total snaps ≡ ok n
    → n ≡ total + sum_of counter snaps
unfolding total_of
total_of-sum counter total [] n h = let q : total ≡ n = cc in omega (arith, q)
total_of-sum counter total (s ∷ rest) n h = elim (Bool-cases (ltb (total + counter s) u64_mod)) [
  | inl t ↦ omega (arith, total_of-sum counter (total + counter s) rest n (rw t at h))
  | inr f ↦ cc (rw f at h)
]

sum_of-insert_named :
    (f : ConsumerRow → ℕ) (c : ConsumerRow) (cs : List ConsumerRow)
    → sum_of f (insert_named c cs) ≡ f c + sum_of f cs
unfolding insert_named
sum_of-insert_named f c [] = refl
sum_of-insert_named f c (x ∷ cs) = ground (arith, sum_of-insert_named f c cs)

sum_of-order_by_name :
    (f : ConsumerRow → ℕ) (cs : List ConsumerRow) → sum_of f (order_by_name cs) ≡ sum_of f cs
unfolding order_by_name
sum_of-order_by_name f [] = refl
sum_of-order_by_name f (c ∷ cs) =
    omega (arith, sum_of-insert_named f c (order_by_name cs), sum_of-order_by_name f cs)

select-all : (cs : List ConsumerRow) → select (λ (c : ConsumerRow). true) cs ≡ cs
select-all [] = refl
select-all (c ∷ cs) = rw (select-all cs) refl

abbrev archives_for : List ArchiveRow → ConsumerRow → ℕ
archives_for archives c = count_where (λ (a : ArchiveRow). a.consumer_id == c.id) archives

-- The snapshots of a list of consumers, one to a consumer.
snapshots_of-sums :
    (db : Database) (now : ℕ) (cs : List ConsumerRow)
    → (snaps : List ConsumerSnapshot) × (snapshots_of db now cs ≡ ok snaps)
      × (sum_of (λ (x : ConsumerSnapshot). x.archived) snaps ≡ sum_of (archives_for db.archives) cs)
      × (length snaps ≡ length cs)
unfolding snapshots_of
snapshots_of-sums db now [] = ([], refl, refl, refl)
snapshots_of-sums db now (c ∷ cs) =
    let (snap, run, good) = snapshot_of-IsSnapshot db now c in
    let (snaps, rest, sums, len) = snapshots_of-sums db now cs in
    (
      snap ∷ snaps,
      ap (λ (r : Result ConsumerSnapshot). r >>= λ x. snapshots_of db now cs >>= λ xs. ok (x ∷ xs))
            run
          ∙ ap (λ (r : Result (List ConsumerSnapshot)). r >>= λ xs. ok (snap ∷ xs)) rest,
      omega (arith, good.archived, sums),
      omega (arith, len),
    )

-- One consumer has the ID of an archive.
sum_of-zero :
    (id : ℕ) (cs : List ConsumerRow)
    → ((c : ConsumerRow) → Among c cs → c.id ≢ id)
    → sum_of (λ (c : ConsumerRow). if id == c.id then 1 else 0) cs ≡ 0
sum_of-zero id [] h = refl
sum_of-zero id (c ∷ cs) h = ground (arith, h c (inl refl), sum_of-zero id cs (λ x m. h x (inr m)))

sum_of-one :
    (id : ℕ) (cs : List ConsumerRow) (c : ConsumerRow)
    → Distinct (λ (x : ConsumerRow). x.id) cs
    → Among c cs
    → c.id ≡ id
    → sum_of (λ (x : ConsumerRow). if id == x.id then 1 else 0) cs ≡ 1
sum_of-one id [] c d m e = elim m [ ]
sum_of-one id (x ∷ cs) c d (inl same) e =
    let mine : x.id ≡ id = ap (λ (y : ConsumerRow). y.id) (sym same) ∙ e in
    ground (arith, sum_of-zero id cs (λ y n k. d.0 y n (mine ∙ sym k)))
sum_of-one id (x ∷ cs) c d (inr m) e = ground (arith, d.0 c m, sum_of-one id cs c d.1 m e)

sum_of-plus :
    (f g h : ConsumerRow → ℕ) (cs : List ConsumerRow)
    → ((c : ConsumerRow) → f c ≡ g c + h c)
    → sum_of f cs ≡ sum_of g cs + sum_of h cs
sum_of-plus f g h [] e = refl
sum_of-plus f g h (c ∷ cs) e = omega (arith, e c, sum_of-plus f g h cs e)

sum_of-none : (cs : List ConsumerRow) → sum_of (archives_for []) cs ≡ 0
sum_of-none [] = refl
sum_of-none (c ∷ cs) = omega (arith, sum_of-none cs)

length-sum_of : (cs : List ConsumerRow) → length cs ≡ sum_of (λ (c : ConsumerRow). 1) cs
length-sum_of [] = refl
length-sum_of (c ∷ cs) = omega (arith, length-sum_of cs)

-- Every archive is counted for its one consumer.
sum_of-archives :
    (cs : List ConsumerRow) (archives : List ArchiveRow)
    → Distinct (λ (x : ConsumerRow). x.id) cs
    → ((a : ArchiveRow) → Among a archives → Scanned cs a.consumer_id a.message_id)
    → sum_of (archives_for archives) cs ≡ length archives
sum_of-archives cs [] d h = sum_of-none cs
sum_of-archives cs (a ∷ archives) d h =
    let (c, among, same, le) = h a (inl refl) in
    omega (
      arith,
      sum_of-plus (archives_for (a ∷ archives))
          (λ (x : ConsumerRow). if a.consumer_id == x.id then 1 else 0) (archives_for archives) cs
          (λ x. ground arith),
      sum_of-one a.consumer_id cs c d among same,
      sum_of-archives cs archives d (λ x n. h x (inr n)),
    )

abbrev pub IsTotal : Database → StoreSnapshot → Type 0
IsTotal db snap =
    (snap.retained_messages ≡ length db.messages)
    × (snap.idempotency_keys ≡ length db.idempotency)
    × (length snap.consumers ≡ length db.consumers)
    × (snap.archived_deliveries ≡ length db.archives)
    × (snap.outstanding_deliveries
        ≡ sum_of (λ (c : ConsumerSnapshot). c.outstanding) snap.consumers)

-- If the database is well-formed and the snapshot of the store succeeds, its counts are those of the
-- tables: one entry to a consumer, every archive counted once, and the sum of the consumers'
-- outstanding work without wrap-around.
pub store_snapshot-totals :
    (clock : SystemTime) (s : State) (snap : StoreSnapshot)
    → WellFormed s.db
    → store_snapshot clock s ≡ ok snap
    → IsTotal s.db snap
unfolding store_snapshot fetch_consumer_snapshots count_from_row
store_snapshot-totals clock s snap w h = elim (Result-cases (now_ms clock)) [
  | inr (x, p) ↦ cc (rw p at h)
  | inl (now, p) ↦
      let (snaps, run, sums, len) = snapshots_of-sums s.db now rows in
      elim (Result-cases (total_of (λ (c : ConsumerSnapshot). c.outstanding) 0 snaps)) [
        | inr (x, q) ↦ cc (rw (p, run, q) at h)
        | inl (outstanding, q) ↦
            elim (Result-cases (total_of (λ (c : ConsumerSnapshot). c.archived) 0 snaps)) [
              | inr (x, r) ↦ cc (rw (p, run, q, r) at h)
              | inl (archived, r) ↦
                  Ensures-ok (IsTotal s.db) _
                    (
                      refl,
                      refl,
                      omega (
                        arith,
                        len,
                        length-sum_of rows,
                        length-sum_of s.db.consumers,
                        sum_of-order_by_name (λ (c : ConsumerRow). 1) all_rows,
                        ap (sum_of (λ (c : ConsumerRow). 1)) (select-all s.db.consumers),
                      ),
                      omega (
                        arith,
                        total_of-sum (λ (c : ConsumerSnapshot). c.archived) 0 snaps archived r,
                        sums,
                        sum_of-order_by_name (archives_for s.db.archives) all_rows,
                        ap (sum_of (archives_for s.db.archives)) (select-all s.db.consumers),
                        sum_of-archives s.db.consumers s.db.archives w.registry.ids
                            w.archives.scanned,
                      ),
                      omega (
                        arith,
                        total_of-sum (λ (c : ConsumerSnapshot). c.outstanding) 0 snaps outstanding
                            q,
                      ),
                    )
                    snap (rw (p, run, q, r) at h)
            ]
      ]
]
  where
    all_rows : List ConsumerRow
    all_rows = select (λ (c : ConsumerRow). true) s.db.consumers

    rows : List ConsumerRow
    rows = order_by_name all_rows
