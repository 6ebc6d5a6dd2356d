-- ===== src/Consumer/Lifecycle/Draining.antt =====
-- `begin_draining` keeps the invariant of the tables.
use litefan.Prelude.{
  ℕ, ◌≤◌, ◌≡◌, refl, sym, ap, ◌∙◌, subst, inl, inr, Bool, false, not, ◌&&◌, max, arith, ◌==◌,
  Among-map, Among-map_inv, Distinct-map, update_where, exists_where, none_of, max_of-le,
  count_where, Bool-cases, if◌then◌else◌,
}
use litefan.Error.{ok}
use litefan.Error.Ensures.{Ensures-ok, Ensures-err, Ensures-if, Ensures-bind}
use litefan.Api.{Message}
use litefan.Time.{SystemTime, now_ms}
use litefan.Schema.{Database, ConsumerRow, high_water, passes_check, update_consumers}
use litefan.Schema.WellFormed.{WellFormed, IsConsumer, Scanned}
use litefan.Schema.Work.{IsWork-consumers}
use litefan.Store.{State}
use litefan.Consumer.{Consumer}
use litefan.Consumer.Lifecycle.{is_active_row, drain_row, begin_draining}

module _ (db : Database) (w : WellFormed db) (id draining_at : ℕ) where
  abbrev step : ConsumerRow → ConsumerRow
  step c = if is_active_row id c then drain_row draining_at (high_water db) c else c

  step-id : (c : ConsumerRow) → (step c).id ≡ c.id
  step-id c = ground arith

  step-name : (c : ConsumerRow) → (step c).name ≡ c.name
  step-name c = ground arith

  step-cursor : (c : ConsumerRow) → (step c).scan_cursor ≡ c.scan_cursor
  step-cursor c = ground arith

  high_water-le : high_water db ≤ db.message_seq
  high_water-le = max_of-le (λ (m : Message). m.id) db.message_seq db.messages w.log.bounded

  step-IsConsumer :
      (c : ConsumerRow) → IsConsumer c db.message_seq → IsConsumer (step c) db.message_seq
  step-IsConsumer c h = elim (Bool-cases (is_active_row id c)) [
    | inl t ↦ rw t (record {
      cursor = h.cursor;
      drains = λ limit e.
          let q : max c.scan_cursor (high_water db) ≡ limit = cc e in
          (omega (arith, q), omega (arith, q, h.cursor, high_water-le));
      draining = refl;
    })
    | inr f ↦ rw f h
  ]

  still-Scanned :
      (i m : ℕ)
      → Scanned db.consumers i m
      → Scanned
          (update_where (is_active_row id) (drain_row draining_at (high_water db)) db.consumers)
          i
          m
  still-Scanned i m (c, n, same, le) =
      (step c, Among-map step c db.consumers n, step-id c ∙ same, omega (arith, le, step-cursor c))

  pub drained-WellFormed : WellFormed (record db {
    consumers =
        update_where (is_active_row id) (drain_row draining_at (high_water db)) db.consumers;
  })
  drained-WellFormed = record {
    log = w.log;
    ledger = w.ledger;
    registry = record {
      ids = Distinct-map (λ (c : ConsumerRow). c.id) step db.consumers step-id w.registry.ids;
      names =
          Distinct-map (λ (c : ConsumerRow). c.name) step db.consumers step-name w.registry.names;
      bounded = λ c n.
          let r = Among-map_inv step c db.consumers n in
          omega
            (arith, w.registry.bounded r.0 r.1, step-id r.0, ap (λ (k : ConsumerRow). k.id) r.2);
      each = λ c n.
          let r = Among-map_inv step c db.consumers n in
          subst (λ (k : ConsumerRow). IsConsumer k db.message_seq) (sym r.2)
            (step-IsConsumer r.0 (w.registry.each r.0 r.1));
    };
    deliveries =
        IsWork-consumers _ (λ d n r. still-Scanned d.consumer_id d.message_id r) w.deliveries;
    archives = IsWork-consumers _ (λ a n r. still-Scanned a.consumer_id a.message_id r) w.archives;
    archive_ids = w.archive_ids;
    archives_bounded = w.archives_bounded;
    disjoint = w.disjoint;
  }

  -- The CHECK never refuses the statement: the limit is not below the cursor.
  pub drain-passes :
      update_consumers db (is_active_row id) (drain_row draining_at (high_water db))
      ≡ ok (record db {
        consumers =
            update_where (is_active_row id) (drain_row draining_at (high_water db)) db.consumers;
      })
  unfolding update_consumers
  drain-passes = rw passes refl
    where
      passes :
          exists_where
            (λ (c : ConsumerRow).
              is_active_row id c && not (passes_check (drain_row draining_at (high_water db) c)))
            db.consumers
          ≡ false
      passes = none_of _ db.consumers (λ c n. ground arith)

-- If the database is well-formed, and other connections keep it so between the two statements, a
-- `begin_draining` that succeeds leaves a well-formed database.
pub begin_draining-WellFormed :
    (self : Consumer) (clock : SystemTime) (between : Database → Database) (s : State)
    → ((db : Database) → WellFormed db → WellFormed (between db))
    → WellFormed s.db
    → (r : Bool × State) → begin_draining self clock between s ≡ ok r
    → WellFormed r.1.db
unfolding begin_draining
begin_draining-WellFormed self clock between s kept w =
    Ensures-bind Post (now_ms clock) _ λ draining_at _.
      rw (drain-passes s.db w self.id draining_at) (
        Ensures-if Post (count_where (is_active_row self.id) s.db.consumers == 1) _ _
          (Ensures-ok Post _ (drained-WellFormed s.db w self.id draining_at))
          (Ensures-if Post _ _ _
            (Ensures-ok Post _ (kept _ (drained-WellFormed s.db w self.id draining_at)))
            (Ensures-err Post _)))
  where
    Post : Bool × State → Type 0
    Post r = WellFormed r.1.db
