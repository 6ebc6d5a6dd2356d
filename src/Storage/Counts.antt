-- ===== src/Storage/Counts.antt =====
-- What `Consumer::snapshot` shows of a well-formed database.
use litefan.Prelude.{
  ℕ, String, min_of, none_of, ◌+◌, ◌≤◌, ◌≡◌, refl, ap, ◌∙◌, inl, inr, Bool, false, Option, none,
  some, List, [], ◌∷◌, arith, ◌==◌, ltb, is_some, Distinct, select, count_where, exists_where,
  find_where, length, Bool-cases, Option-cases,
}
use litefan.Error.{ok, err}
use litefan.Api.{ConsumerSnapshot, is_draining, not_ready, as_database_value}
use litefan.Time.{SystemTime, now_ms}
use litefan.Schema.{Database, ConsumerRow, DeliveryRow, ArchiveRow, find_consumer}
use litefan.Schema.WellFormed.{WellFormed}
use litefan.Store.{State}
use litefan.Consumer.{Consumer, deleted_error}
use litefan.Storage.Snapshots.{
  is_unread, delivers_to, is_ready, is_waiting, snapshot_of, snapshots_of, fetch_consumer_snapshots,
  consumer_snapshot, order_by_name, filter_of_row,
}

-- What a snapshot says of the consumer of the row `c` at the time `now`.
pub record IsSnapshot (db : Database) (now : ℕ) (c : ConsumerRow) (snap : ConsumerSnapshot)
    : Type 0 where
  pub named : snap.name ≡ c.name
  pub filtered : as_database_value snap.filter ≡ c.topic_filter
  pub draining : is_draining snap.state ≡ is_some c.draining_at
  pub outstanding :
      snap.outstanding
      ≡ count_where (delivers_to c) db.deliveries + count_where (is_unread db c) db.messages
  pub ready_le : snap.ready ≤ snap.outstanding
  pub not_ready_eq : not_ready snap ≡ count_where (is_waiting c now) db.deliveries
  pub next_ready : is_some snap.next_ready_at_ms ≡ ltb 0 (not_ready snap)
  pub archived : snap.archived ≡ count_where (λ (a : ArchiveRow). a.consumer_id == c.id) db.archives

-- Each delivery is ready or not yet visible.
pub ready-or-waiting :
    (c : ConsumerRow) (now : ℕ) (rows : List DeliveryRow)
    → count_where (delivers_to c) rows
      ≡ count_where (is_ready c now) rows + count_where (is_waiting c now) rows
ready-or-waiting c now [] = omega arith
ready-or-waiting c now (d ∷ rows) = ground (arith, ready-or-waiting c now rows)

as_database_value-filter_of_row : (t : Option String) → as_database_value (filter_of_row t) ≡ t
as_database_value-filter_of_row none = refl
as_database_value-filter_of_row (some t) = refl

some-min_of :
    (rows : List DeliveryRow)
    → is_some (min_of (λ (d : DeliveryRow). d.visible_at) rows) ≡ ltb 0 (length rows)
some-min_of [] = refl
some-min_of (d ∷ rows) = elim (Option-cases (min_of (λ (x : DeliveryRow). x.visible_at) rows)) [
  | inl e ↦ rw e (ground arith)
  | inr (v, e) ↦ rw e (ground arith)
]

pub snapshot_of-IsSnapshot :
    (db : Database) (now : ℕ) (c : ConsumerRow)
    → (snap : ConsumerSnapshot) × (snapshot_of db now c ≡ ok snap) × IsSnapshot db now c snap
unfolding snapshot_of
snapshot_of-IsSnapshot db now c = (
  _,
  refl,
  record {
    named = refl;
    filtered = as_database_value-filter_of_row c.topic_filter;
    draining = ground arith;
    outstanding = refl;
    ready_le = omega (arith, ready-or-waiting c now db.deliveries);
    not_ready_eq = omega (arith, ready-or-waiting c now db.deliveries);
    next_ready =
        some-min_of (select (is_waiting c now) db.deliveries)
        ∙ ap (ltb 0) (omega (arith, ready-or-waiting c now db.deliveries));
    archived = refl;
  },
)

select-nothing {ℓ} :
    {A : Type ℓ} (p : A → Bool) (xs : List A) → exists_where p xs ≡ false → select p xs ≡ []
select-nothing p [] h = refl
select-nothing p (x ∷ xs) h = ground (arith, select-nothing p xs)

-- A key selects the one row that has it.
select-one :
    (id : ℕ) (cs : List ConsumerRow) (c : ConsumerRow)
    → Distinct (λ (x : ConsumerRow). x.id) cs
    → find_where (λ (x : ConsumerRow). x.id == id) cs ≡ some c
    → select (λ (x : ConsumerRow). x.id == id) cs ≡ c ∷ []
select-one id [] c d h = cc h
select-one id (x ∷ cs) c d h = elim (Bool-cases (x.id == id)) [
  | inl t ↦
      let e : x ≡ c = cc (rw t at h) in
      rw
        (
          t,
          select-nothing (λ (y : ConsumerRow). y.id == id) cs
              (none_of (λ (y : ConsumerRow). y.id == id) cs (λ y m. ground (arith, d.0 y m))),
          e,
        )
        refl
  | inr f ↦ rw f (select-one id cs c d.1 (rw f at h))
]

select-none :
    (id : ℕ) (cs : List ConsumerRow)
    → find_where (λ (x : ConsumerRow). x.id == id) cs ≡ none
    → select (λ (x : ConsumerRow). x.id == id) cs ≡ []
select-none id [] h = refl
select-none id (x ∷ cs) h = ground (arith, select-none id cs)

-- If the database is well-formed, the clock reads `now` and the consumer exists, its snapshot
-- succeeds, and counts its work: every outstanding message is ready or a delivery that is not yet
-- visible, and the filter is the stored one.
pub consumer_snapshot-IsSnapshot :
    (self : Consumer) (clock : SystemTime) (now : ℕ) (s : State) (c : ConsumerRow)
    → WellFormed s.db
    → now_ms clock ≡ ok now
    → find_consumer s.db self.id ≡ some c
    → (snap : ConsumerSnapshot) × (consumer_snapshot self clock s ≡ ok snap)
      × IsSnapshot s.db now c snap
unfolding consumer_snapshot fetch_consumer_snapshots order_by_name snapshots_of
consumer_snapshot-IsSnapshot self clock now s c w e found =
    let (snap, run, good) = snapshot_of-IsSnapshot s.db now c in
    (snap, rw (e, select-one self.id s.db.consumers c w.registry.ids found, run) refl, good)

-- A deleted consumer has no snapshot.
pub consumer_snapshot-deleted :
    (self : Consumer) (clock : SystemTime) (now : ℕ) (s : State)
    → now_ms clock ≡ ok now
    → find_consumer s.db self.id ≡ none
    → consumer_snapshot self clock s ≡ err (deleted_error self)
unfolding consumer_snapshot fetch_consumer_snapshots order_by_name snapshots_of
consumer_snapshot-deleted self clock now s e gone =
    rw (e, select-none self.id s.db.consumers gone) refl
