-- ===== src/Consumer/Claim/New.antt =====
-- Leasing from the log: `lease_new` succeeds on a well-formed database, with these rows, this cursor
-- and these leases.
use litefan.Prelude.{
  ℕ, ◌≤◌, ◌<◌, ◌≡◌, ◌≢◌, refl, sym, ap, ◌∙◌, inl, inr, Bool, true, false, not, ◌&&◌, Option, some,
  List, [], ◌∷◌, ◌++◌, map, arith, ◌==◌, ==_iff, ltb, Among, Among-map_inv, Among-select_inv,
  Among-take, length, exists_where, update_where, Distinct, Distinct-select, Distinct-eq,
  Distinct-of_map, none_of, Bool-cases, sort_by, Ascending, Ascending-take, Ascending-map,
  Ascending-Distinct, sort_by-Ascending, Among-sort_by, sort_by-Permᴰ, sort_by_id, Distinct-Permᴰ,
  exists_where-true, subst, Option-cases, leb_iff, String,
}
use mathlib.Core.List.Permᴰ
use litefan.Error.{ok}
use litefan.Api.{Message}
use litefan.Schema.{Database, ConsumerRow, DeliveryRow, update_consumers, passes_check}
use litefan.Schema.WellFormed.{WellFormed, message_key, delivery_key, Scanned, Retained}
use litefan.Schema.Inserts.{CanDeliver, insert_deliveries_lem}
use litefan.Schema.Work.{has_message-Retained}
use litefan.Storage.{ReturnsRows}
use litefan.Consumer.{Consumer}
use litefan.Consumer.Claim.{
  is_pending, next_messages, first_lease, last_or, new_lease, next_cursor, lease_new,
}

last_or-ge :
    (d : ℕ) (ids : List ℕ) (i : ℕ) → Ascending (λ n. n) ids → Among i ids → i ≤ last_or d ids
last_or-ge d [] i s m = elim m [ ]
last_or-ge d (x ∷ []) i s (inl e) = omega (arith, e)
last_or-ge d (x ∷ []) i s (inr m) = elim m [ ]
last_or-ge d (x ∷ y ∷ ids) i s (inl e) =
    omega (arith, e, s.0 y (inl refl), last_or-ge x (y ∷ ids) y s.1 (inl refl))
last_or-ge d (x ∷ y ∷ ids) i s (inr m) = last_or-ge x (y ∷ ids) i s.1 m

last_or-bounds :
    (d lo hi : ℕ) (ids : List ℕ)
    → lo ≤ d
    → d ≤ hi
    → ((i : ℕ) → Among i ids → (lo ≤ i) × (i ≤ hi))
    → (lo ≤ last_or d ids) × (last_or d ids ≤ hi)
last_or-bounds d lo hi [] p q h = (p, q)
last_or-bounds d lo hi (x ∷ ids) p q h =
    let b = h x (inl refl) in last_or-bounds x lo hi ids b.0 b.1 (λ i m. h i (inr m))

pub is_pending-bounds :
    (topic : Option String) (lo hi : ℕ) (m : Message)
    → is_pending topic lo hi m ≡ true
    → (lo < m.id) × (m.id ≤ hi)
is_pending-bounds topic lo hi m h = ground arith

Distinct-pairs :
    (i : ℕ) (ns : List ℕ) → Distinct (λ (n : ℕ). n) ns → Distinct {K = ℕ × ℕ} (λ n. (i, n)) ns
Distinct-pairs i [] d = tt
Distinct-pairs i (n ∷ ns) d =
    (λ a m e. d.0 a m (ap (λ (x : ℕ × ℕ). x.1) e), Distinct-pairs i ns d.1)

module _ (self : Consumer) (lawful : ReturnsRows self.fan.pool)
    (scan_limit remaining lease_deadline : ℕ) (db : Database) (w : WellFormed db) (c : ConsumerRow)
    (row : Among c db.consumers) (own : c.id ≡ self.id) (behind : c.scan_cursor < scan_limit)
    (within : (limit : ℕ) → c.drain_cursor ≡ some limit → scan_limit ≤ limit) where
  abbrev pub found : List Message
  found = next_messages c.topic_filter c.scan_cursor scan_limit remaining db.messages

  abbrev pub ids : List ℕ
  ids = map message_key found

  abbrev pub cursor : ℕ
  cursor = next_cursor c.scan_cursor scan_limit remaining ids

  abbrev pub own_row : ConsumerRow → Bool
  own_row x = x.id == self.id

  abbrev pub advance : ConsumerRow → ConsumerRow
  advance x = record x { scan_cursor = cursor }

  abbrev pub new_rows : List DeliveryRow
  new_rows = map (first_lease self.id lease_deadline) ids

  -- The database that the statement leaves.
  abbrev pub next_db : Database
  next_db = record db {
    deliveries = db.deliveries ++ new_rows;
    consumers = update_where own_row advance db.consumers;
  }

  found-Ascending : Ascending message_key found
  unfolding next_messages
  found-Ascending = Ascending-take message_key remaining _ (
      sort_by-Ascending message_key _ (
        Distinct-select message_key (is_pending c.topic_filter c.scan_cursor scan_limit) db.messages
          (Ascending-Distinct message_key db.messages w.log.ascend)))

  pub ids-Ascending : Ascending (λ n. n) ids
  ids-Ascending = Ascending-map message_key (λ n. n) message_key found (λ a. refl) found-Ascending

  pub found-pending :
      (m : Message)
      → Among m found
      → (Among m db.messages) × (is_pending c.topic_filter c.scan_cursor scan_limit m ≡ true)
  unfolding next_messages
  found-pending m n =
      Among-select_inv (is_pending c.topic_filter c.scan_cursor scan_limit) m db.messages
        (Among-sort_by message_key m _ (Among-take m remaining _ n))

  pub ids-bounds : (i : ℕ) → Among i ids → (c.scan_cursor < i) × (i ≤ scan_limit)
  ids-bounds i n =
      let r = Among-map_inv message_key i found n in
      let b =
        is_pending-bounds c.topic_filter c.scan_cursor scan_limit r.0 (found-pending r.0 r.1).1 in
      (omega (arith, r.2, b.0), omega (arith, r.2, b.1))

  pub ids-Retained : (i : ℕ) → Among i ids → Retained db.messages i
  ids-Retained i n =
      let r = Among-map_inv message_key i found n in (r.0, (found-pending r.0 r.1).0, sym r.2)

  pub cursor_bounds : (c.scan_cursor ≤ cursor) × (cursor ≤ scan_limit)
  cursor_bounds =
      let b =
        last_or-bounds c.scan_cursor c.scan_cursor scan_limit ids (omega arith) (omega arith)
          (λ i n. (omega (arith, (ids-bounds i n).0), (ids-bounds i n).1)) in
      elim (Bool-cases (ltb (length ids) remaining)) [
        | inl t ↦ rw t (omega arith, omega arith)
        | inr f ↦ rw f b
      ]

  pub cursor_covers : (i : ℕ) → Among i ids → i ≤ cursor
  cursor_covers i n = elim (Bool-cases (ltb (length ids) remaining)) [
    | inl t ↦ rw t ((ids-bounds i n).1)
    | inr f ↦ rw f (last_or-ge c.scan_cursor ids i ids-Ascending n)
  ]

  -- RETURNING and the sort give the IDs in the order of the log.
  returned : sort_by (λ n. n) (self.fan.pool.returning_ids ids) ≡ ids
  returned =
      let d = Ascending-Distinct (λ n. n) ids ids-Ascending in
      sort_by-Permᴰ (λ n. n) (lawful.ids ids)
        (Distinct-Permᴰ (λ n. n) (Permᴰ.symm (lawful.ids ids)) d)
      ∙ sort_by_id (λ n. n) ids ids-Ascending

  -- This consumer's row is the only one of its ID.
  pub own_row-eq : (x : ConsumerRow) → Among x db.consumers → own_row x ≡ true → x ≡ c
  own_row-eq x n h =
      Distinct-eq (λ (r : ConsumerRow). r.id) db.consumers x c w.registry.ids n row
        ((==_iff x.id self.id).0 h ∙ sym own)

  -- A message above the cursor has no delivery and no archive for this consumer.
  pub not-Scanned : (i mid : ℕ) → i ≡ self.id → c.scan_cursor < mid → ¬ Scanned db.consumers i mid
  not-Scanned i mid e above (x, n, same, le) =
      let q = own_row-eq x n ((==_iff x.id self.id).1 (same ∙ e)) in
      absurd (omega (arith, le, above, ap (λ (r : ConsumerRow). r.scan_cursor) q))

  pub new_row-key :
      (d : DeliveryRow) → Among d new_rows → (i : ℕ) × Among i ids × (delivery_key d ≡ (self.id, i))
  new_row-key d n =
      let r = Among-map_inv (first_lease self.id lease_deadline) d ids n in
      (r.0, r.1, ap delivery_key r.2)

  -- No delivery or archive of this consumer has the key of a new row.
  pub new_row_fresh :
      (d : DeliveryRow) (k : ℕ × ℕ)
      → Among d new_rows
      → Scanned db.consumers k.0 k.1
      → k ≢ delivery_key d
  new_row_fresh d k n scanned e =
      let r = new_row-key d n in
      let q = e ∙ r.2 in
      not-Scanned k.0 k.1 (ap (λ (x : ℕ × ℕ). x.0) q)
        (omega (arith, (ids-bounds r.0 r.1).0, ap (λ (x : ℕ × ℕ). x.1) q)) scanned

  pub can_deliver : CanDeliver db new_rows
  can_deliver = record {
    distinct =
        Distinct-of_map {K = ℕ × ℕ} (λ n. (self.id, n)) delivery_key
          (first_lease self.id lease_deadline) ids (λ a. refl)
          (Distinct-pairs self.id ids (Ascending-Distinct (λ n. n) ids ids-Ascending));
    fresh = λ d e m n. new_row_fresh e (delivery_key d) n (w.deliveries.scanned d m);
    consumers = λ d n.
        let r = new_row-key d n in
        exists_where-true (λ (x : ConsumerRow). x.id == d.consumer_id) c db.consumers row
          ((==_iff c.id d.consumer_id).1 (own ∙ sym (ap (λ (x : ℕ × ℕ). x.0) r.2)));
    messages = λ d n.
        let r = new_row-key d n in
        has_message-Retained db d.message_id
          (subst (Retained db.messages) (sym (ap (λ (x : ℕ × ℕ). x.1) r.2)) (ids-Retained r.0 r.1));
  }

  advance_passes : passes_check (advance c) ≡ true
  advance_passes = elim (Option-cases c.drain_cursor) [
    | inl e ↦ rw e
    | inr (limit, e) ↦
        rw e ((leb_iff cursor limit).1 (omega (arith, cursor_bounds.1, within limit e)))
  ]

  no_failure :
      exists_where (λ (x : ConsumerRow). own_row x && not (passes_check (advance x))) db.consumers
      ≡ false
  no_failure = none_of _ db.consumers λ x n. elim (Bool-cases (own_row x)) [
    | inl t ↦
        rw
          (t, ap (λ (r : ConsumerRow). passes_check (advance r)) (own_row-eq x n t), advance_passes)
    | inr f ↦ rw f
  ]

  -- The CHECK of the schema lets the cursor move.
  advance_ok :
      update_consumers (record db { deliveries = db.deliveries ++ new_rows }) own_row advance
      ≡ ok next_db
  unfolding update_consumers
  advance_ok = rw no_failure

  pub lease_new_lem :
      lease_new self c scan_limit remaining lease_deadline db
      ≡ ok (record { leases = map new_lease ids; db = next_db })
  unfolding lease_new
  lease_new_lem = rw (insert_deliveries_lem new_rows db can_deliver, returned, advance_ok)
