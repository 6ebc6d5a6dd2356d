-- ===== src/Store/Retention/Drained.antt =====
-- What a snapshot shows as drained may be deleted without loss.
use litefan.Prelude.{
  ℕ, ◌≤◌, ◌≡◌, refl, sym, ap, ◌∙◌, subst, inl, inr, Bool, true, false, String, some, List, [], ◌∷◌,
  arith, ◌==◌, ==_iff, text_eq, text_eq_iff, Among, Distinct, count_where, exists_where,
  exists_where-true, find_where, find_where-Among, max_of-ge, delete_where, delete_where-none,
  Bool-cases, Option-cases, is_some, &&_iff,
}
use litefan.Error.{ok}
use litefan.Api.{Message, drained_only, ConsumerSnapshot, is_drained, is_empty, is_draining}
use litefan.Time.{SystemTime, now_ms}
use litefan.Schema.{
  Database, ConsumerRow, DeliveryRow, ArchiveRow, has_consumer, high_water, find_consumer,
  delete_consumer_row,
}
use litefan.Schema.WellFormed.{WellFormed, message_key}
use litefan.Signals.{notify_consumer}
use litefan.Storage.Snapshots.{is_unread, consumer_snapshot}
use litefan.Storage.Counts.{IsSnapshot, consumer_snapshot-IsSnapshot}
use litefan.Store.{State}
use litefan.Store.Retention.{
  unseen, outstanding_of, archives_of, deletion_guard, discard_archives, delete_consumer,
}
use litefan.Consumer.{Consumer}

count-same :
    (p q : Message → Bool) (ms : List Message)
    → ((m : Message) → Among m ms → p m ≡ q m)
    → count_where p ms ≡ count_where q ms
count-same p q [] h = refl
count-same p q (m ∷ ms) h = ground (arith, h m (inl refl), count-same p q ms (λ x n. h x (inr n)))

-- The query of `delete_consumer` counts what the snapshot counts.
unseen-is_unread :
    (db : Database) (c : ConsumerRow) (m : Message)
    → Among m db.messages
    → unseen c m ≡ is_unread db c m
unseen-is_unread db c m n =
    let le : m.id ≤ high_water db = max_of-ge message_key m db.messages n in
    elim (Option-cases c.drain_cursor) [
      | inl e ↦ rw e (ground arith)
      | inr (limit, e) ↦ rw e (ground arith)
    ]

find_where-named :
    (name : String) (cs : List ConsumerRow) (c : ConsumerRow)
    → Distinct (λ (x : ConsumerRow). x.name) cs
    → Among c cs
    → c.name ≡ name
    → find_where (λ (x : ConsumerRow). text_eq x.name name) cs ≡ some c
find_where-named name [] c d m e = elim m [ ]
find_where-named name (x ∷ cs) c d (inl same) e =
    rw ((text_eq_iff x.name name).1 (ap (λ (y : ConsumerRow). y.name) (sym same) ∙ e), same) refl
find_where-named name (x ∷ cs) c d (inr m) e = elim (Bool-cases (text_eq x.name name)) [
  | inl t ↦ absurd (d.0 c m ((text_eq_iff x.name name).0 t ∙ sym e))
  | inr f ↦ rw f (find_where-named name cs c d.1 m e)
]

pub no_rows {ℓ} :
    {A : Type ℓ} (p : A → Bool) (xs : List A) → count_where p xs ≡ 0 → exists_where p xs ≡ false
no_rows p [] h = refl
no_rows p (x ∷ xs) h = ground (arith, no_rows p xs)

-- If the database is well-formed, and the snapshot of a consumer shows it drained and without
-- archives, then `delete_consumer` of its name succeeds under `drained_only`, and no delivery
-- and no archive goes with it.
pub delete_consumer-drained :
    (self : Consumer) (clock : SystemTime) (now : ℕ) (s : State) (c : ConsumerRow)
    (snap : ConsumerSnapshot)
    → WellFormed s.db
    → now_ms clock ≡ ok now
    → find_consumer s.db self.id ≡ some c
    → consumer_snapshot self clock s ≡ ok snap
    → is_drained snap ≡ true
    → snap.archived ≡ 0
    → (s' : State) × (delete_consumer c.name drained_only s
        ≡ ok (record { discarded_deliveries = 0; discarded_archives = 0 }, s'))
      × (s'.db.deliveries ≡ s.db.deliveries)
      × (s'.db.archives ≡ s.db.archives)
unfolding delete_consumer deletion_guard discard_archives delete_consumer_row
delete_consumer-drained self clock now s c snap w e found run drained none_archived =
    let (snap', run', good') = consumer_snapshot-IsSnapshot self clock now s c w e found in
    let same : snap' ≡ snap = cc (run, run') in
    let good : IsSnapshot s.db now c snap = subst (IsSnapshot s.db now c) same good' in
    let at = find_where-Among (λ (x : ConsumerRow). x.id == self.id) s.db.consumers c found in
    let named = find_where-named c.name s.db.consumers c w.registry.names at.0 refl in
    let parts = (&&_iff (is_draining snap.state) (is_empty snap)).0 drained in
    let draining : is_some c.draining_at ≡ true = sym good.draining ∙ parts.0 in
    let outstanding : outstanding_of c s.db ≡ 0 = omega (
      arith,
      good.outstanding,
      (==_iff snap.outstanding 0).0 parts.1,
      count-same (unseen c) (is_unread s.db c) s.db.messages (unseen-is_unread s.db c),
    ) in
    let archived : archives_of c s.db ≡ 0 = sym good.archived ∙ none_archived in
    let known : has_consumer s.db c.id ≡ true =
      exists_where-true (λ (x : ConsumerRow). x.id == c.id) c s.db.consumers at.0
        ((==_iff c.id c.id).1 refl) in
    let unarchived = no_rows (λ (a : ArchiveRow). a.consumer_id == c.id) s.db.archives archived in
    let idle : count_where (λ (d : DeliveryRow). d.consumer_id == c.id) s.db.deliveries ≡ 0 =
      omega (arith, outstanding) in
    (
      record {
        db = record s.db {
          consumers = delete_where (λ (x : ConsumerRow). x.id == c.id) s.db.consumers;
          deliveries = delete_where (λ (d : DeliveryRow). d.consumer_id == c.id) s.db.deliveries;
        };
        signals = notify_consumer c.id s.signals;
      },
      rw (named, draining, outstanding, archived, known, unarchived) refl,
      delete_where-none (λ (d : DeliveryRow). d.consumer_id == c.id) s.db.deliveries
          (no_rows (λ (d : DeliveryRow). d.consumer_id == c.id) s.db.deliveries idle),
      refl,
    )
