-- ===== src/Consumer/Claim/Counts.antt =====
-- How many deliveries a claim takes: all that are ready, up to `max_messages`.
use litefan.Prelude.{
  ℕ, ◌+◌, ◌-◌, ◌≤◌, ◌<◌, ◌≡◌, ◌≢◌, refl, sym, ap, ◌∙◌, inl, inr, Bool, true, false, ◌&&◌, Option,
  some, List, [], ◌∷◌, ◌++◌, map, arith, ◌==◌, ==_iff, ltb, ltb_iff, leb_iff, &&_iff, min, Among,
  Among-map_inv, Among-take, Among-sort_by, Among-select_inv, length, length-append, length-map,
  length-take, length-sort_by, length-Permᴰ, select, take, sort_by, count_where, count-zero,
  none_of, exists_where, exists_where-true, exists_where-Among, exists-update_same, min_of, String,
  Distinct, Distinct-select, Distinct-of_map, Distinct-sort_by, Distinct-take, Bool-cases,
  Option-cases, find_where-Among,
}
use litefan.Error.{ok}
use litefan.Time.{i64_max}
use litefan.Api.{Message}
use litefan.Schema.{Database, ConsumerRow, DeliveryRow, find_consumer, has_consumer, delivers}
use litefan.Schema.WellFormed.{WellFormed, message_key, delivery_key}
use litefan.Storage.{Lease, ReturnsRows}
use litefan.Consumer.{Consumer}
use litefan.Consumer.Claim.{
  Claimed, claim_transaction, scan_limit_of, lease_message_id, new_lease, lease_of, is_visible,
  is_chosen, lease_candidates, lease_row, lease_visible, is_pending, next_messages, retry_ready,
}
use litefan.Consumer.Claim.Visible.{count-is_chosen, lease_visible-WellFormed, Distinct-messages}
use litefan.Consumer.Claim.New.{lease_new_lem}
use litefan.Consumer.Claim.Transaction.{old_row, scan_limit-within}

-- Different messages choose different rows.
count-split :
    (id m : ℕ) (ms : List ℕ) (rows : List DeliveryRow)
    → ((j : ℕ) → Among j ms → m ≢ j)
    → count_where (is_chosen id (m ∷ ms)) rows
      ≡ count_where (delivers id m) rows + count_where (is_chosen id ms) rows
count-split id m ms [] h = refl
count-split id m ms (d ∷ rows) h =
    let rest = count-split id m ms rows h in
    elim (Bool-cases (m == d.message_id)) [
      | inl t ↦
          let none_of_ms : exists_where (λ (j : ℕ). j == d.message_id) ms ≡ false =
            none_of (λ (j : ℕ). j == d.message_id) ms
              (λ j n. ground (arith, h j n, (==_iff m d.message_id).0 t)) in
          ground (arith, rest, t, none_of_ms)
      | inr f ↦ ground (arith, rest, f)
    ]

count-positive {ℓ} :
    {A : Type ℓ} (p : A → Bool) (xs : List A) (a : A)
    → Among a xs
    → p a ≡ true
    → 1 ≤ count_where p xs
count-positive p [] a n h = elim n [ ]
count-positive p (x ∷ xs) a (inl e) h = let t : p x ≡ true = ap p (sym e) ∙ h in rw t (omega arith)
count-positive p (x ∷ xs) a (inr n) h = ground (arith, count-positive p xs a n h)

length-chosen :
    (id : ℕ) (ms : List ℕ) (rows : List DeliveryRow)
    → Distinct (λ (m : ℕ). m) ms
    → ((m : ℕ) → Among m ms → exists_where (delivers id m) rows ≡ true)
    → length ms ≤ count_where (is_chosen id ms) rows
length-chosen id [] rows d h = omega arith
length-chosen id (m ∷ ms) rows d h =
    let (r, among, mine) = exists_where-Among (delivers id m) rows (h m (inl refl)) in
    omega (
      arith,
      count-split id m ms rows d.0,
      count-positive (delivers id m) rows r among mine,
      length-chosen id ms rows d.1 (λ j n. h j (inr n)),
    )

-- A delivery is ready unless the earliest of the consumer's deliveries is still leased.
pub idle-visible :
    (id now : ℕ) (rows : List DeliveryRow)
    → retry_ready
        (min_of
          (λ (d : DeliveryRow). d.visible_at)
          (select (λ (d : DeliveryRow). d.consumer_id == id) rows))
        now
      ≡ false
    → count_where (is_visible id now) rows ≡ 0
idle-visible id now [] h = refl
idle-visible id now (d ∷ rows) h = elim (Bool-cases (d.consumer_id == id)) [
  | inr f ↦ rw f (idle-visible id now rows (rw f at h))
  | inl t ↦
      elim (Option-cases (
        min_of (λ (x : DeliveryRow). x.visible_at)
          (select (λ (x : DeliveryRow). x.consumer_id == id) rows))) [
            | inl e ↦ rw t (ground (arith, idle-visible id now rows (rw e refl), rw (t, e) at h))
            | inr (v, e) ↦ ground (
              arith,
              idle-visible id now rows (rw e (ground (arith, rw (t, e) at h))),
              rw (t, e) at h,
              t,
            )
          ]
]

-- Nothing is pending where the cursor has reached the limit.
pub count-pending :
    (topic : Option String) (lo hi : ℕ) (ms : List Message)
    → hi ≤ lo
    → count_where (is_pending topic lo hi) ms ≡ 0
count-pending topic lo hi ms h =
    count-zero (is_pending topic lo hi) ms
      (none_of (is_pending topic lo hi) ms (λ m n. ground (arith, h)))

module _ (self : Consumer) (lawful : ReturnsRows self.fan.pool)
    (max_messages lease_deadline now : ℕ) (db : Database) (w : WellFormed db) where
  abbrev visible : List DeliveryRow
  visible = select (is_visible self.id now) db.deliveries

  abbrev sorted : List DeliveryRow
  sorted =
      sort_by (λ (d : DeliveryRow). d.visible_at)
        (sort_by (λ (d : DeliveryRow). d.message_id) visible)

  abbrev candidates : List ℕ
  candidates = lease_candidates self.id now max_messages db.deliveries

  candidates-Distinct : Distinct (λ (m : ℕ). m) candidates
  unfolding lease_candidates
  candidates-Distinct =
      Distinct-of_map (λ (d : DeliveryRow). d.message_id) (λ (m : ℕ). m)
        (λ (d : DeliveryRow). d.message_id) (take max_messages sorted) (λ d. refl)
        (Distinct-take (λ (d : DeliveryRow). d.message_id) max_messages sorted
          (Distinct-sort_by _ (λ (d : DeliveryRow). d.message_id) _
            (Distinct-sort_by _ (λ (d : DeliveryRow). d.message_id) visible
              (Distinct-messages self.id visible
                (λ d n.
                  (==_iff d.consumer_id self.id).0
                    ((&&_iff _ _).0
                      (Among-select_inv (is_visible self.id now) d db.deliveries n).1).0)
                (Distinct-select delivery_key (is_visible self.id now) db.deliveries
                  w.deliveries.distinct)))))

  candidates-rows :
      (m : ℕ) → Among m candidates → exists_where (delivers self.id m) db.deliveries ≡ true
  unfolding lease_candidates
  candidates-rows m n =
      let (d, among, e) =
        Among-map_inv (λ (x : DeliveryRow). x.message_id) m (take max_messages sorted) n in
      let r = Among-select_inv (is_visible self.id now) d db.deliveries (
        Among-sort_by _ d visible (Among-sort_by _ d _ (Among-take d max_messages sorted among))) in
      exists_where-true (delivers self.id m) d db.deliveries r.0 (ground (arith, r.1, e))

  length-candidates :
      length candidates ≡ min max_messages (count_where (is_visible self.id now) db.deliveries)
  unfolding lease_candidates
  length-candidates = omega (
    arith,
    length-map (λ (d : DeliveryRow). d.message_id) (take max_messages sorted),
    length-take max_messages sorted,
    length-sort_by (λ (d : DeliveryRow). d.visible_at)
        (sort_by (λ (d : DeliveryRow). d.message_id) visible),
    length-sort_by (λ (d : DeliveryRow). d.message_id) visible,
  )

  -- The UPDATE leases all that is visible, up to `max_messages`.
  pub length-leased :
      length (lease_visible self max_messages lease_deadline now db).leases
      ≡ min max_messages (count_where (is_visible self.id now) db.deliveries)
  unfolding lease_visible
  length-leased =
      let chosen = select (is_chosen self.id candidates) db.deliveries in
      omega (
        arith,
        length-Permᴰ (lawful.leases (map lease_of (map (lease_row lease_deadline) chosen))),
        length-map lease_of (map (lease_row lease_deadline) chosen),
        length-map (lease_row lease_deadline) chosen,
        length-chosen self.id candidates db.deliveries candidates-Distinct candidates-rows,
        count-is_chosen self.id candidates db.deliveries w.deliveries.distinct,
        length-candidates,
      )

-- What is ready for a consumer: its visible deliveries and the messages that it has not read.
abbrev pub ready_of : Database → ℕ → ConsumerRow → ℕ
ready_of db now c =
    count_where (is_visible c.id now) db.deliveries
    + count_where (is_pending c.topic_filter c.scan_cursor (scan_limit_of db c)) db.messages

length-next_messages :
    (topic : Option String) (lo hi remaining : ℕ) (ms : List Message)
    → length (next_messages topic lo hi remaining ms)
      ≡ min remaining (count_where (is_pending topic lo hi) ms)
unfolding next_messages
length-next_messages topic lo hi remaining ms = omega (
  arith,
  length-take remaining (sort_by message_key (select (is_pending topic lo hi) ms)),
  length-sort_by message_key (select (is_pending topic lo hi) ms),
)

length-both :
    (old : List Lease) (found : List Message) (max_messages visible pending ready : ℕ)
    → length old ≡ min max_messages visible
    → 0 < max_messages - length old
    → length found ≡ min (max_messages - length old) pending
    → ready ≡ visible + pending
    → length (sort_by lease_message_id (old ++ map new_lease (map message_key found)))
      ≡ min max_messages ready
length-both old found max_messages visible pending ready a b d e = omega (
  arith,
  length-sort_by lease_message_id (old ++ map new_lease (map message_key found)),
  length-append old (map new_lease (map message_key found)),
  length-map new_lease (map message_key found),
  length-map message_key found,
  a,
  b,
  d,
  e,
)

length-only :
    (old : List Lease) (max_messages visible pending ready lo hi : ℕ)
    → length old ≡ min max_messages visible
    → (ltb 0 (max_messages - length old) && ltb lo hi) ≡ false
    → (hi ≤ lo → pending ≡ 0)
    → ready ≡ visible + pending
    → length (sort_by lease_message_id (old ++ [])) ≡ min max_messages ready
length-only old max_messages visible pending ready lo hi a b p e =
    let n = length-sort_by lease_message_id (old ++ []) in
    let k = length-append old [] in
    elim (Bool-cases (ltb lo hi)) [
      | inl t ↦ ground (arith, n, k, a, b, e, t)
      | inr f ↦ let q = p (ground (arith, f)) in omega (arith, n, k, a, e, q)
    ]

pub length-claim_transaction :
    (self : Consumer) (max_messages lease_deadline now : ℕ) (db : Database) (c : ConsumerRow)
    → ReturnsRows self.fan.pool
    → WellFormed db
    → find_consumer db self.id ≡ some c
    → max_messages ≤ i64_max
    → (done : Claimed) × (claim_transaction self max_messages lease_deadline now db ≡ ok done)
      × (length done.leases ≡ min max_messages (ready_of db now c))
      × (has_consumer done.db self.id ≡ true)
unfolding claim_transaction
length-claim_transaction self max_messages lease_deadline now db c lawful w e small =
    let at = find_where-Among (λ (x : ConsumerRow). x.id == self.id) db.consumers c e in
    let own = (==_iff c.id self.id).0 at.1 in
    let first = lease_visible self max_messages lease_deadline now db in
    let leased = length-leased self lawful max_messages lease_deadline now db w in
    let known : has_consumer db self.id ≡ true =
      exists_where-true (λ (x : ConsumerRow). x.id == self.id) c db.consumers at.0 at.1 in
    let pending = is_pending c.topic_filter c.scan_cursor (scan_limit_of db c) in
    let ready : ready_of db now c
        ≡ count_where (is_visible self.id now) db.deliveries + count_where pending db.messages =
      ap
        (λ (id : ℕ).
          count_where (is_visible id now) db.deliveries + count_where pending db.messages)
        own in
    let scans =
      ltb 0 (max_messages - length first.leases) && ltb c.scan_cursor (scan_limit_of db c) in
    rw (e, (leb_iff max_messages i64_max).1 small)
      (elim (Bool-cases scans) [
        | inl t ↦
            let behind = (ltb_iff c.scan_cursor (scan_limit_of db c)).0 ((&&_iff _ _).0 t).1 in
            rw
              (
                t,
                lease_new_lem self lawful (scan_limit_of db c) (max_messages - length first.leases)
                    lease_deadline first.db
                    (lease_visible-WellFormed self lawful max_messages lease_deadline now db w) c
                    (old_row self lawful max_messages lease_deadline now db w c at.0 own behind) own
                    behind (scan_limit-within db c),
              )
              (
                _,
                refl,
                length-both first.leases _ max_messages
                    (count_where (is_visible self.id now) db.deliveries)
                    (count_where pending db.messages) (ready_of db now c) leased
                    ((ltb_iff 0 (max_messages - length first.leases)).0 ((&&_iff _ _).0 t).0)
                    (length-next_messages c.topic_filter c.scan_cursor (scan_limit_of db c)
                      (max_messages - length first.leases) db.messages)
                    ready,
                exists-update_same (λ (x : ConsumerRow). x.id == self.id) _ db.consumers (λ a. refl)
                    ∙ known,
              )
        | inr f ↦ rw f (
          _,
          refl,
          length-only first.leases max_messages (count_where (is_visible self.id now) db.deliveries)
              (count_where pending db.messages) (ready_of db now c) c.scan_cursor
              (scan_limit_of db c) leased f
              (count-pending c.topic_filter c.scan_cursor (scan_limit_of db c) db.messages) ready,
          known,
        )
      ])
