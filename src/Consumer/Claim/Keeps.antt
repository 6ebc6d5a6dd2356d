-- ===== src/Consumer/Claim/Keeps.antt =====
-- Advancing the cursor and inserting the leases keeps the invariant.
use litefan.Prelude.{
  ℕ, ◌≤◌, ◌<◌, ◌≡◌, ◌≢◌, sym, ap, ◌∙◌, inl, inr, Bool, true, some, List, arith, ==_iff, Among,
  Among-map, Among-map_inv, Among-append, update_where, if◌then◌else◌, Distinct-map, Bool-cases,
  subst,
}
use litefan.Schema.{Database, ConsumerRow, DeliveryRow}
use litefan.Schema.WellFormed.{
  WellFormed, IsRegistry, IsConsumer, delivery_key, archive_key, Scanned, Retained,
}
use litefan.Schema.Work.{IsWork-append, IsWork-consumers}
use litefan.Storage.{ReturnsRows}
use litefan.Consumer.{Consumer}
use litefan.Consumer.Claim.New.{
  next_db, new_rows, ids, own_row, advance, own_row-eq, cursor_bounds, cursor_covers, new_row-key,
  new_row_fresh, ids-Retained, can_deliver,
}

module _ (self : Consumer) (lawful : ReturnsRows self.fan.pool)
    (scan_limit remaining lease_deadline : ℕ) (db : Database) (w : WellFormed db) (c : ConsumerRow)
    (row : Among c db.consumers) (own : c.id ≡ self.id) (behind : c.scan_cursor < scan_limit)
    (within : (limit : ℕ) → c.drain_cursor ≡ some limit → scan_limit ≤ limit)
    (in_log : scan_limit ≤ db.message_seq) where
  abbrev rows : List DeliveryRow
  rows = new_rows self lawful scan_limit remaining lease_deadline db w c row own behind within

  abbrev new_ids : List ℕ
  new_ids = ids self lawful scan_limit remaining lease_deadline db w c row own behind within

  abbrev is_own : ConsumerRow → Bool
  is_own = own_row self lawful scan_limit remaining lease_deadline db w c row own behind within

  abbrev step : ConsumerRow → ConsumerRow
  step = advance self lawful scan_limit remaining lease_deadline db w c row own behind within

  abbrev moved : ConsumerRow → ConsumerRow
  moved x = if is_own x then step x else x

  bounds : (c.scan_cursor ≤ (step c).scan_cursor) × ((step c).scan_cursor ≤ scan_limit)
  bounds =
      cursor_bounds self lawful scan_limit remaining lease_deadline db w c row own behind within

  is_c : (x : ConsumerRow) → Among x db.consumers → is_own x ≡ true → x ≡ c
  is_c = own_row-eq self lawful scan_limit remaining lease_deadline db w c row own behind within

  moved-id : (x : ConsumerRow) → (moved x).id ≡ x.id
  moved-id x = elim (Bool-cases (is_own x)) [ inl t ↦ rw t | inr f ↦ rw f ]

  moved-name : (x : ConsumerRow) → (moved x).name ≡ x.name
  moved-name x = elim (Bool-cases (is_own x)) [ inl t ↦ rw t | inr f ↦ rw f ]

  moved-own : moved c ≡ step c
  moved-own = rw ((==_iff c.id self.id).1 own)

  -- No cursor moves back.
  moved-cursor : (x : ConsumerRow) → Among x db.consumers → x.scan_cursor ≤ (moved x).scan_cursor
  moved-cursor x n = elim (Bool-cases (is_own x)) [
    | inl t ↦ rw t (omega (arith, bounds.0, ap (λ (r : ConsumerRow). r.scan_cursor) (is_c x n t)))
    | inr f ↦ rw f (omega arith)
  ]

  moved-IsConsumer : (x : ConsumerRow) → Among x db.consumers → IsConsumer (moved x) db.message_seq
  moved-IsConsumer x n = elim (Bool-cases (is_own x)) [
    | inl t ↦ rw t (record {
      cursor = omega (arith, bounds.1);
      drains = λ limit e. (
        omega (
          arith,
          bounds.1,
          within limit (ap (λ (r : ConsumerRow). r.drain_cursor) (sym (is_c x n t)) ∙ e),
        ),
        ((w.registry.each x n).drains limit e).1,
      );
      draining = (w.registry.each x n).draining;
    })
    | inr f ↦ rw f (w.registry.each x n)
  ]

  registry' : IsRegistry (update_where is_own step db.consumers) db.consumer_seq db.message_seq
  registry' = record {
    ids = Distinct-map (λ (r : ConsumerRow). r.id) moved db.consumers moved-id w.registry.ids;
    names =
        Distinct-map (λ (r : ConsumerRow). r.name) moved db.consumers moved-name w.registry.names;
    bounded = λ x n.
        let r = Among-map_inv moved x db.consumers n in
        omega (arith, w.registry.bounded r.0 r.1, moved-id r.0, ap (λ (k : ConsumerRow). k.id) r.2);
    each = λ x n.
        let r = Among-map_inv moved x db.consumers n in
        subst (λ (k : ConsumerRow). IsConsumer k db.message_seq) (sym r.2)
          (moved-IsConsumer r.0 r.1);
  }

  pub still-Scanned :
      (i mid : ℕ)
      → Scanned db.consumers i mid
      → Scanned (update_where is_own step db.consumers) i mid
  still-Scanned i mid (x, n, same, le) = (
    moved x,
    Among-map moved x db.consumers n,
    moved-id x ∙ same,
    omega (arith, le, moved-cursor x n),
  )

  new-Scanned :
      (d : DeliveryRow)
      → Among d rows
      → Scanned (update_where is_own step db.consumers) d.consumer_id d.message_id
  new-Scanned d n =
      let r =
        new_row-key self lawful scan_limit remaining lease_deadline db w c row own behind within d
          n in
      let covered =
        cursor_covers self lawful scan_limit remaining lease_deadline db w c row own behind within
          r.0 r.1 in
      (
        moved c,
        Among-map moved c db.consumers row,
        moved-id c ∙ own ∙ sym (ap (λ (k : ℕ × ℕ). k.0) r.2),
        omega (
          arith,
          covered,
          ap (λ (k : ℕ × ℕ). k.1) r.2,
          ap (λ (k : ConsumerRow). k.scan_cursor) moved-own,
        ),
      )

  new-Retained : (d : DeliveryRow) → Among d rows → Retained db.messages d.message_id
  new-Retained d n =
      let r =
        new_row-key self lawful scan_limit remaining lease_deadline db w c row own behind within d
          n in
      subst (Retained db.messages) (sym (ap (λ (k : ℕ × ℕ). k.1) r.2)) (
        ids-Retained self lawful scan_limit remaining lease_deadline db w c row own behind within
          r.0 r.1)

  fresh :
      (d : DeliveryRow) (k : ℕ × ℕ)
      → Among d rows
      → Scanned db.consumers k.0 k.1
      → k ≢ delivery_key d
  fresh = new_row_fresh self lawful scan_limit remaining lease_deadline db w c row own behind within

  pub next_db-WellFormed :
      WellFormed
        (next_db self lawful scan_limit remaining lease_deadline db w c row own behind within)
  next_db-WellFormed = record {
    log = w.log;
    ledger = w.ledger;
    registry = registry';
    deliveries =
        IsWork-append rows
          (IsWork-consumers (update_where is_own step db.consumers)
            (λ a n. still-Scanned a.consumer_id a.message_id) w.deliveries)
          (record {
            distinct =
                (can_deliver self lawful scan_limit remaining lease_deadline db w c row own behind
                  within).distinct;
            retained = new-Retained;
            scanned = new-Scanned;
          })
          (λ a b m n. fresh b (delivery_key a) n (w.deliveries.scanned a m));
    archives =
        IsWork-consumers (update_where is_own step db.consumers)
          (λ a n. still-Scanned a.consumer_id a.message_id) w.archives;
    archive_ids = w.archive_ids;
    archives_bounded = w.archives_bounded;
    disjoint = λ d a n m e. elim (Among-append d db.deliveries rows n) [
      | inl l ↦ w.disjoint d a l m e
      | inr r ↦ fresh d (archive_key a) r (w.archives.scanned a m) (sym e)
    ];
  }
