-- ===== src/Store/Retention/Erasure.antt =====
-- What a successful `delete_consumer` leaves behind.
use litefan.Prelude.{
  ℕ, ◌≡◌, ◌≢◌, refl, sym, ap, ◌∙◌, subst, inl, inr, true, false, not, String, ◌==◌, ==_iff, text_eq,
  text_eq_iff, Among, Among-select, Among-select_inv, Distinct-eq, exists_where, exists_where-true,
  find_where, find_where-Among, delete_where, delete_where-none, exists-delete_where, Bool,
  Bool-cases, some, Option-cases, is_some,
}
use litefan.Error.{ok, Result-cases}
use litefan.Api.{DeleteMode, drained_only, discard_outstanding, discard_all, DeleteOutcome}
use litefan.Schema.{
  Database, ConsumerRow, DeliveryRow, ArchiveRow, has_consumer, delete_consumer_row,
}
use litefan.Schema.Changes.{WellFormed-fewer_archives}
use litefan.Schema.WellFormed.{WellFormed}
use litefan.Store.{State}
use litefan.Store.Retention.{
  deletion_guard, discard_archives, delete_consumer, outstanding_of, archives_of,
}
use litefan.Store.Retention.Deletion.{bereft, bereft-WellFormed, delete_consumer_row-eq-ok}

-- The consumer of the name is gone with its deliveries and its archives, and with nothing else: every
-- other consumer, delivery and archive is as it was, and so are the log and the ledger.
pub record IsDeleted (name : String) (before after : Database) : Type 0 where
  pub valid : WellFormed after
  pub gone : (c : ConsumerRow) → Among c after.consumers → c.name ≢ name
  pub others :
      (c : ConsumerRow) → Among c before.consumers → c.name ≢ name → Among c after.consumers
  pub known : (c : ConsumerRow) × Among c before.consumers × (c.name ≡ name)
  pub left :
      (c : ConsumerRow)
      → Among c before.consumers
      → c.name ≡ name
      → (after.deliveries
          ≡ delete_where (λ (d : DeliveryRow). d.consumer_id == c.id) before.deliveries)
        × (after.archives
            ≡ delete_where (λ (a : ArchiveRow). a.consumer_id == c.id) before.archives)
  pub same_messages : after.messages ≡ before.messages
  pub same_ledger : after.idempotency ≡ before.idempotency

module _ (db : Database) (id : ℕ) where
  discard_archives-WellFormed :
      (mode : DeleteMode) → WellFormed db → WellFormed (discard_archives mode id db)
  unfolding discard_archives
  discard_archives-WellFormed drained_only w = w
  discard_archives-WellFormed discard_outstanding w = w
  discard_archives-WellFormed discard_all w =
      WellFormed-fewer_archives db (λ (a : ArchiveRow). a.consumer_id == id) w

  discard_archives-same :
      (mode : DeleteMode)
      → ((discard_archives mode id db).consumers ≡ db.consumers)
        × ((discard_archives mode id db).messages ≡ db.messages)
        × ((discard_archives mode id db).idempotency ≡ db.idempotency)
        × ((discard_archives mode id db).deliveries ≡ db.deliveries)
  unfolding discard_archives
  discard_archives-same drained_only = (refl, refl, refl, refl)
  discard_archives-same discard_outstanding = (refl, refl, refl, refl)
  discard_archives-same discard_all = (refl, refl, refl, refl)

  abbrev is_own : ArchiveRow → Bool
  is_own a = a.consumer_id == id

  -- Only archives of the consumer are discarded.
  discard_archives-own :
      (mode : DeleteMode)
      → delete_where is_own (discard_archives mode id db).archives ≡ delete_where is_own db.archives
  unfolding discard_archives
  discard_archives-own drained_only = refl
  discard_archives-own discard_outstanding = refl
  discard_archives-own discard_all =
      delete_where-none is_own (delete_where is_own db.archives)
        (exists-delete_where is_own db.archives)

bereft-IsDeleted :
    (name : String) (db db' : Database) (c : ConsumerRow)
    → WellFormed db
    → Among c db.consumers
    → c.name ≡ name
    → delete_consumer_row db c.id ≡ ok db'
    → IsDeleted name db db'
bereft-IsDeleted name db db' c w n named h = subst (IsDeleted name db) (sym r.1) (record {
  valid = bereft-WellFormed db c.id w r.0;
  known = (c, n, named);
  left = λ x m e.
      let one : c ≡ x =
        Distinct-eq (λ (y : ConsumerRow). y.name) db.consumers c x w.registry.names n m
          (named ∙ sym e) in
      subst
        (λ (y : ConsumerRow).
          ((bereft db c.id w r.0).deliveries
            ≡ delete_where (λ (d : DeliveryRow). d.consumer_id == y.id) db.deliveries)
          × (db.archives ≡ delete_where (λ (a : ArchiveRow). a.consumer_id == y.id) db.archives))
        one
        (refl, sym (delete_where-none (λ (a : ArchiveRow). a.consumer_id == c.id) db.archives r.0));
  gone = λ x m e.
      let k = Among-select_inv (λ (y : ConsumerRow). not (y.id == c.id)) x db.consumers m in
      let one : x ≡ c =
        Distinct-eq (λ (y : ConsumerRow). y.name) db.consumers x c w.registry.names k.0 n
          (e ∙ sym named) in
      cc ((==_iff x.id c.id).1 (ap (λ (y : ConsumerRow). y.id) one), k.1);
  others = λ x m other. elim (Bool-cases (x.id == c.id)) [
    | inl t ↦ absurd (
        other (
          ap (λ (y : ConsumerRow). y.name)
            (Distinct-eq (λ (y : ConsumerRow). y.id) db.consumers x c w.registry.ids m n
              ((==_iff x.id c.id).0 t))
          ∙ named))
    | inr f ↦ Among-select (λ (y : ConsumerRow). not (y.id == c.id)) x db.consumers m (rw f refl)
  ];
  same_messages = refl;
  same_ledger = refl;
})
  where
    known : has_consumer db c.id ≡ true
    known =
        exists_where-true (λ (x : ConsumerRow). x.id == c.id) c db.consumers n
          ((==_iff c.id c.id).1 refl)

    r :
        (exists_where (λ (a : ArchiveRow). a.consumer_id == c.id) db.archives ≡ false)
        × (db' ≡ bereft db c.id w (delete_consumer_row-eq-ok db c.id db' known h).0)
    r = delete_consumer_row-eq-ok db c.id db' known h

-- The archives of the consumer that `discard_all` deletes first are no part of the statement.
after_discard :
    (name : String) (mode : DeleteMode) (db db' : Database) (c : ConsumerRow)
    → WellFormed db
    → find_where (λ (x : ConsumerRow). text_eq x.name name) db.consumers ≡ some c
    → delete_consumer_row (discard_archives mode c.id db) c.id ≡ ok db'
    → IsDeleted name db db'
after_discard name mode db db' c w found h = record {
  valid = done.valid;
  gone = done.gone;
  others = λ x m other. done.others x (subst (Among x) (sym same.0) m) other;
  known = (c, at.0, (text_eq_iff c.name name).0 at.1);
  left = λ x m e.
      let one : c ≡ x =
        Distinct-eq (λ (y : ConsumerRow). y.name) db.consumers c x w.registry.names at.0 m
          ((text_eq_iff c.name name).0 at.1 ∙ sym e) in
      let rest = done.left x (subst (Among x) (sym same.0) m) e in
      let own =
        subst
          (λ (y : ConsumerRow).
            delete_where (λ (a : ArchiveRow). a.consumer_id == y.id)
              (discard_archives mode c.id db).archives
            ≡ delete_where (λ (a : ArchiveRow). a.consumer_id == y.id) db.archives)
          one (discard_archives-own db c.id mode) in
      (
        rest.0 ∙ ap (delete_where (λ (d : DeliveryRow). d.consumer_id == x.id)) same.3,
        rest.1 ∙ own,
      );
  same_messages = done.same_messages ∙ same.1;
  same_ledger = done.same_ledger ∙ same.2;
}
  where
    same :
        ((discard_archives mode c.id db).consumers ≡ db.consumers)
        × ((discard_archives mode c.id db).messages ≡ db.messages)
        × ((discard_archives mode c.id db).idempotency ≡ db.idempotency)
        × ((discard_archives mode c.id db).deliveries ≡ db.deliveries)
    same = discard_archives-same db c.id mode

    at : Among c db.consumers × (text_eq c.name name ≡ true)
    at = find_where-Among (λ (x : ConsumerRow). text_eq x.name name) db.consumers c found

    done : IsDeleted name (discard_archives mode c.id db) db'
    done =
        bereft-IsDeleted name (discard_archives mode c.id db) db' c
          (discard_archives-WellFormed db c.id mode w) (subst (Among c) (sym same.0) at.0)
          ((text_eq_iff c.name name).0 at.1) h

-- If the database is well-formed and `delete_consumer` succeeds, in whatever mode, a consumer had the
-- name and none has it any more; its deliveries and archives are gone, and those of every other
-- consumer, every other consumer, the log and the ledger are as they were; the database is well-formed.
pub delete_consumer-IsDeleted :
    (name : String) (mode : DeleteMode) (s : State) (o : DeleteOutcome) (s' : State)
    → WellFormed s.db
    → delete_consumer name mode s ≡ ok (o, s')
    → IsDeleted name s.db s'.db
unfolding delete_consumer
delete_consumer-IsDeleted name mode s o s' w h =
    elim (Option-cases (find_where (λ (c : ConsumerRow). text_eq c.name name) s.db.consumers)) [
      | inl none_found ↦ cc (rw none_found at h)
      | inr (c, found) ↦
          elim (Result-cases (
            deletion_guard name mode (is_some c.draining_at) (outstanding_of c s.db)
              (archives_of c s.db))) [
                | inr (x, q) ↦ cc (rw (found, q) at h)
                | inl (u, q) ↦
                    elim (Result-cases
                      (delete_consumer_row (discard_archives mode c.id s.db) c.id)) [
                        | inr (x, p) ↦ cc (rw (found, q, p) at h)
                        | inl (db', p) ↦
                            let k = rw (found, q, p) at h in
                            let e : db' ≡ s'.db = cc k in
                            subst (IsDeleted name s.db) e
                              (after_discard name mode s.db db' c w found p)
                      ]
              ]
    ]
