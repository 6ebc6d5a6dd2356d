-- ===== src/Consumer/Lifecycle/Opening.antt =====
-- `ConsumerBuilder::open` of src/consumer.rs keeps the invariant, and is idempotent.
use litefan.Prelude.{
  ℕ, ◌+◌, ◌≡◌, refl, sym, ap, ◌∙◌, subst, inl, inr, false, [], ◌∷◌, ◌++◌, arith, String, text_eq,
  text_eq_iff, Among-append, Among-append_left, Distinct-append, exists_where, exists_where-true,
  max_of-le, find_where, Bool-cases, Option-cases,
}
use litefan.Error.Ensures.{Ensures, Ensures-ok, Ensures-err, Ensures-if, Ensures-bind}
use litefan.Api.{Filter, as_database_value}
use litefan.Time.{SystemTime, now_ms}
use litefan.Schema.{Database, ConsumerRow}
use litefan.Schema.WellFormed.{WellFormed, IsConsumer, IsRegistry, message_key, Scanned}
use litefan.Schema.Work.{IsWork-consumers}
use litefan.Store.{State, LiteFan}
use litefan.Consumer.{Consumer}
use litefan.Consumer.Lifecycle.{
  named, new_consumer_row, insert_consumer, same_filter, open_transaction, open_consumer,
}

module _ (db : Database) (w : WellFormed db) (name : String) (filter : Filter) (now : ℕ) where
  abbrev new : ConsumerRow
  new = new_consumer_row db name filter now

  new-IsConsumer : IsConsumer new db.message_seq
  new-IsConsumer = record {
    cursor = max_of-le message_key db.message_seq db.messages w.log.bounded;
    drains = λ limit e. cc e;
    draining = refl;
  }

  consumers-IsRegistry :
      exists_where (named name) db.consumers ≡ false
      → IsRegistry (db.consumers ++ new ∷ []) (db.consumer_seq + 1) db.message_seq
  consumers-IsRegistry f = record {
    ids =
        Distinct-append (λ (c : ConsumerRow). c.id) db.consumers (new ∷ []) w.registry.ids
          ((λ c n. elim n [ ]), tt)
          (λ a b m n. elim n [
            | inl e ↦ λ q.
                absurd (omega (arith, w.registry.bounded a m, q, ap (λ (c : ConsumerRow). c.id) e))
            | inr v ↦ elim v [ ]
          ]);
    names =
        Distinct-append (λ (c : ConsumerRow). c.name) db.consumers (new ∷ []) w.registry.names
          ((λ c n. elim n [ ]), tt)
          (λ a b m n. elim n [
            | inl e ↦ λ q.
                let t =
                  exists_where-true (named name) a db.consumers m
                    ((text_eq_iff a.name name).1 (q ∙ ap (λ (c : ConsumerRow). c.name) e)) in
                cc (t, f)
            | inr v ↦ elim v [ ]
          ]);
    bounded = λ c n. elim (Among-append c db.consumers (new ∷ []) n) [
      | inl l ↦ omega (arith, w.registry.bounded c l)
      | inr (inl e) ↦ omega (arith, ap (λ (x : ConsumerRow). x.id) e)
      | inr (inr v) ↦ elim v [ ]
    ];
    each = λ c n. elim (Among-append c db.consumers (new ∷ []) n) [
      | inl l ↦ w.registry.each c l
      | inr (inl e) ↦
          subst (λ (x : ConsumerRow). IsConsumer x db.message_seq) (sym e) new-IsConsumer
      | inr (inr v) ↦ elim v [ ]
    ];
  }

  keep-Scanned : (i m : ℕ) → Scanned db.consumers i m → Scanned (db.consumers ++ new ∷ []) i m
  keep-Scanned i m (c, n, e, le) = (c, Among-append_left c db.consumers (new ∷ []) n, e, le)

  insert_consumer-WellFormed : WellFormed (insert_consumer db name filter now)
  unfolding insert_consumer
  insert_consumer-WellFormed = elim (Bool-cases (exists_where (named name) db.consumers)) [
    | inl t ↦ rw t w
    | inr f ↦ rw f (record {
      log = w.log;
      ledger = w.ledger;
      registry = consumers-IsRegistry f;
      deliveries =
          IsWork-consumers (db.consumers ++ new ∷ [])
            (λ d n s. keep-Scanned d.consumer_id d.message_id s) w.deliveries;
      archives =
          IsWork-consumers (db.consumers ++ new ∷ [])
            (λ a n s. keep-Scanned a.consumer_id a.message_id s) w.archives;
      archive_ids = w.archive_ids;
      archives_bounded = w.archives_bounded;
      disjoint = w.disjoint;
    })
  ]

  open_transaction-WellFormed :
      Ensures (λ (r : ℕ × Database). WellFormed r.1) (open_transaction name filter now db)
  unfolding open_transaction
  open_transaction-WellFormed r h =
      elim (Option-cases (find_where (named name) (insert_consumer db name filter now).consumers)) [
        | inl gone ↦ cc (rw (gone, open_transaction) at h)
        | inr (c, found) ↦
            Ensures-if (λ (x : ℕ × Database). WellFormed x.1)
              (same_filter c.topic_filter (as_database_value filter)) _ _
              (Ensures-ok (λ (x : ℕ × Database). WellFormed x.1) _ insert_consumer-WellFormed)
              (Ensures-err (λ (x : ℕ × Database). WellFormed x.1) _) r
              (rw (found, open_transaction) at h)
      ]

-- A successful `open` leaves a well-formed database.
pub open_consumer-WellFormed :
    (fan : LiteFan) (name : String) (filter : Filter) (clock : SystemTime) (s : State)
    → WellFormed s.db
    → Ensures (λ (r : Consumer × State). WellFormed r.1.db) (open_consumer fan name filter clock s)
unfolding open_consumer
open_consumer-WellFormed fan name filter clock s w =
    let P : Consumer × State → Type 0 = λ r. WellFormed r.1.db in
    Ensures-if P (text_eq name "") _ _ (Ensures-err P _) (
      Ensures-bind P (now_ms clock) _ λ now _.
        Ensures-bind P (open_transaction name filter now s.db) _
          λ opened e. Ensures-ok P _ (open_transaction-WellFormed s.db w name filter now opened e))
