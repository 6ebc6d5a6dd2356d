-- ===== src/Consumer/Claim/Visible.antt =====
-- Leasing the visible deliveries: at most as many as asked for, each under the generation of its row.
use litefan.Prelude.{
  ℕ, ◌+◌, ◌≤◌, ◌≡◌, refl, sym, ap, ◌∙◌, inl, inr, Bool, true, List, [], ◌∷◌, map, arith, Among,
  Among-map, Among-map_inv, Among-select_inv, length, length-map, take, length-take, select,
  count_where, if◌then◌else◌, Distinct, Distinct-select, Distinct-of_map, Distinct-Permᴰ,
  count_le_one, Among-Permᴰ, length-Permᴰ, sort_by,
}
use mathlib.Core.List.Permᴰ
use litefan.Schema.{Database, DeliveryRow, delivers}
use litefan.Schema.WellFormed.{WellFormed, delivery_key}
use litefan.Schema.Changes.{IsNextDeliveries, WellFormed-deliveries, IsNextDeliveries-same}
use litefan.Storage.{Lease, ReturnsRows}
use litefan.Consumer.{Consumer}
use litefan.Consumer.Receipts.Keeps.{IsNextDeliveries-update}
use litefan.Consumer.Claim.{
  lease_candidates, is_chosen, is_visible, lease_row, lease_of, lease_visible, lease_message_id,
  Leased,
}

count-or :
    (id m : ℕ) (ms : List ℕ) (rows : List DeliveryRow)
    → count_where (is_chosen id (m ∷ ms)) rows
      ≤ count_where (delivers id m) rows + count_where (is_chosen id ms) rows
count-or id m ms [] = omega arith
count-or id m ms (d ∷ rows) = ground (arith, count-or id m ms rows)

-- No more rows are chosen than message IDs were selected.
pub count-is_chosen :
    (id : ℕ) (ms : List ℕ) (rows : List DeliveryRow)
    → Distinct delivery_key rows
    → count_where (is_chosen id ms) rows ≤ length ms
count-is_chosen id [] [] d = omega arith
count-is_chosen id [] (x ∷ rows) d = ground (arith, count-is_chosen id [] rows d.1)
count-is_chosen id (m ∷ ms) rows d = omega (
  arith,
  count-or id m ms rows,
  count-is_chosen id ms rows d,
  count_le_one delivery_key (delivers id m) rows d (λ a b t u. ground arith),
)

is_chosen-own :
    (id : ℕ) (ms : List ℕ) (d : DeliveryRow) → is_chosen id ms d ≡ true → d.consumer_id ≡ id
is_chosen-own id ms d h = ground arith

-- Deliveries of one consumer differ by their messages.
pub Distinct-messages :
    (id : ℕ) (rows : List DeliveryRow)
    → ((d : DeliveryRow) → Among d rows → d.consumer_id ≡ id)
    → Distinct delivery_key rows
    → Distinct (λ (d : DeliveryRow). d.message_id) rows
Distinct-messages id [] h d = tt
Distinct-messages id (x ∷ rows) h d = (
  λ a m e. d.0 a m (ground (arith, h x (inl refl), h a (inr m))),
  Distinct-messages id rows (λ a m. h a (inr m)) d.1,
)

module _ (self : Consumer) (lawful : ReturnsRows self.fan.pool)
    (max_messages lease_deadline now : ℕ) (db : Database) (w : WellFormed db) where
  abbrev pub old : Leased
  old = lease_visible self max_messages lease_deadline now db

  abbrev chosen : DeliveryRow → Bool
  chosen = is_chosen self.id (lease_candidates self.id now max_messages db.deliveries)

  -- The rows that the statement affects, as it leaves them.
  abbrev leased_rows : List DeliveryRow
  leased_rows = map (lease_row lease_deadline) (select chosen db.deliveries)

  pub IsNextDeliveries-lease_visible : IsNextDeliveries db old.db.deliveries
  unfolding lease_visible
  IsNextDeliveries-lease_visible =
      IsNextDeliveries-update chosen (lease_row lease_deadline) (λ d. refl)
        (IsNextDeliveries-same db w)

  -- Only the deliveries change.
  pub lease_visible_frame : old.db ≡ record db { deliveries = old.db.deliveries }
  unfolding lease_visible
  lease_visible_frame = refl

  pub lease_visible-WellFormed : WellFormed old.db
  unfolding lease_visible
  lease_visible-WellFormed = WellFormed-deliveries db _ w IsNextDeliveries-lease_visible

  pub length-lease_visible : length old.leases ≤ max_messages
  unfolding lease_visible lease_candidates
  length-lease_visible = omega (
    arith,
    length-Permᴰ (lawful.leases (map lease_of leased_rows)),
    length-map lease_of leased_rows,
    length-map (lease_row lease_deadline) (select chosen db.deliveries),
    count-is_chosen self.id (lease_candidates self.id now max_messages db.deliveries) db.deliveries
        w.deliveries.distinct,
    length-map (λ (d : DeliveryRow). d.message_id)
        (take max_messages (
          sort_by (λ (d : DeliveryRow). d.visible_at)
            (sort_by (λ (d : DeliveryRow). d.message_id)
              (select (is_visible self.id now) db.deliveries)))),
    length-take max_messages (
        sort_by (λ (d : DeliveryRow). d.visible_at)
          (sort_by (λ (d : DeliveryRow). d.message_id)
            (select (is_visible self.id now) db.deliveries))),
  )

  -- A row that a lease stands for, after the statement.
  abbrev pub Held : Lease → List DeliveryRow → Type 0
  Held l rows = (d : DeliveryRow) × Among d rows × (d.consumer_id ≡ self.id) × (l ≡ lease_of d)

  origin :
      (l : Lease)
      → Among l old.leases
      → (d : DeliveryRow) × Among d (select chosen db.deliveries)
        × (l ≡ lease_of (lease_row lease_deadline d))
  unfolding lease_visible
  origin l m =
      let a =
        Among-map_inv lease_of l leased_rows
          (Among-Permᴰ l (lawful.leases (map lease_of leased_rows)) m) in
      let b = Among-map_inv (lease_row lease_deadline) a.0 (select chosen db.deliveries) a.1 in
      (b.0, b.1, a.2 ∙ ap lease_of b.2)

  pub lease_visible-Held : (l : Lease) → Among l old.leases → Held l old.db.deliveries
  unfolding lease_visible
  lease_visible-Held l m =
      let (d, n, e) = origin l m in
      let r = Among-select_inv chosen d db.deliveries n in
      let update = λ (x : DeliveryRow). if chosen x then lease_row lease_deadline x else x in
      let moved : update d ≡ lease_row lease_deadline d = rw r.1 in
      (
        update d,
        Among-map update d db.deliveries r.0,
        ap (λ (x : DeliveryRow). x.consumer_id) moved ∙ is_chosen-own self.id _ d r.1,
        e ∙ ap lease_of (sym moved),
      )

  pub Distinct-lease_visible : Distinct lease_message_id old.leases
  unfolding lease_visible
  Distinct-lease_visible =
      Distinct-Permᴰ lease_message_id (Permᴰ.symm (lawful.leases (map lease_of leased_rows))) (
        Distinct-of_map (λ (d : DeliveryRow). d.message_id) lease_message_id lease_of leased_rows
          (λ d. refl)
          (Distinct-of_map (λ (d : DeliveryRow). d.message_id) (λ (d : DeliveryRow). d.message_id)
            (lease_row lease_deadline) (select chosen db.deliveries) (λ d. refl)
            (Distinct-messages self.id (select chosen db.deliveries)
              (λ d m. is_chosen-own self.id _ d (Among-select_inv chosen d db.deliveries m).1)
              (Distinct-select delivery_key chosen db.deliveries w.deliveries.distinct))))
