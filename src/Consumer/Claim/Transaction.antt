-- ===== src/Consumer/Claim/Transaction.antt =====
-- The transaction of a claim on a well-formed database: it succeeds, keeps the invariant, and what it
-- leases is bounded, in order, matched by messages, and held under the leases' generations.
use litefan.Prelude.{
  ℕ, ◌-◌, ◌≤◌, ◌<◌, ◌≡◌, ◌≢◌, refl, sym, ap, inl, inr, Bool, true, ◌&&◌, some, List, [], ◌++◌, map,
  arith, ◌==◌, ==_iff, ltb, ltb_iff, leb_iff, &&_iff, Among, Among-append, Among-append_left,
  Among-append_right, Among-map, Among-map_inv, length, length-append, length-map, length-take,
  sort_by, length-sort_by, Ascending, sort_by-Ascending, Among-sort_by, Distinct, Distinct-append,
  Distinct-of_map, Ascending-Distinct, Bool-cases, find_where-Among, max_of-le, Option-cases, subst,
  is_some, select,
}
use mathlib.Core.List.{append-nil}
use litefan.Error.{ok}
use litefan.Time.{i64_max}
use litefan.Schema.{Database, ConsumerRow, DeliveryRow, find_consumer}
use litefan.Schema.WellFormed.{WellFormed, message_key, Retained}
use litefan.Storage.{Lease, ReturnsRows}
use litefan.Consumer.{Consumer}
use litefan.Consumer.Claim.{
  Claimed, Leased, claim_transaction, scan_limit_of, lease_message_id, new_lease, lease_of,
  first_lease, matched, fetch_messages, lease_visible, is_pending, next_messages,
}
use litefan.Consumer.Claim.Fetch.{matched-fetch_messages}
use litefan.Consumer.Claim.Visible.{
  lease_visible-WellFormed, length-lease_visible, lease_visible-Held, Distinct-lease_visible,
}
use litefan.Consumer.Claim.New.{
  ids, next_db, lease_new_lem, ids-Ascending, ids-bounds, found, not-Scanned,
}
use litefan.Consumer.Claim.Keeps.{next_db-WellFormed}

-- What is claimed from a database for a consumer.
pub record IsClaimed (self : Consumer) (max_messages : ℕ) (done : Claimed) : Type 0 where
  pub keeps : WellFormed done.db
  pub bounded : length done.leases ≤ max_messages
  pub ordered : Ascending lease_message_id done.leases
  pub complete : matched done.leases done.messages ≡ true
  pub held :
      (l : Lease)
      → Among l done.leases
      → (d : DeliveryRow) × Among d done.db.deliveries
        × (d.consumer_id ≡ self.id)
        × (l ≡ lease_of d)

-- The two parts of the leases, with the database after both.
record IsLeased (self : Consumer) (max_messages : ℕ) (leases : List Lease) (db : Database)
    : Type 0 where
  keeps : WellFormed db
  bounded : length leases ≤ max_messages
  distinct : Distinct lease_message_id leases
  held :
      (l : Lease)
      → Among l leases
      → (d : DeliveryRow) × Among d db.deliveries × (d.consumer_id ≡ self.id) × (l ≡ lease_of d)

IsClaimed-of :
    (self : Consumer) (max_messages : ℕ) (leases : List Lease) (db : Database) (draining : Bool)
    → IsLeased self max_messages leases db
    → IsClaimed self max_messages (record {
      leases = sort_by lease_message_id leases;
      messages = fetch_messages db.messages (sort_by lease_message_id leases);
      draining = draining;
      db = db;
    })
IsClaimed-of self max_messages leases db draining h = record {
  keeps = h.keeps;
  bounded = omega (arith, h.bounded, length-sort_by lease_message_id leases);
  ordered = sort_by-Ascending lease_message_id leases h.distinct;
  complete =
      matched-fetch_messages db.messages _ h.keeps.log.ascend
        (sort_by-Ascending lease_message_id leases h.distinct)
        (λ l n.
          let r = h.held l (Among-sort_by lease_message_id l leases n) in
          subst (Retained db.messages) (sym (ap lease_message_id r.3))
            (h.keeps.deliveries.retained r.0 r.1));
  held = λ l n. h.held l (Among-sort_by lease_message_id l leases n);
}

pub scan_limit-le_seq :
    (db : Database) (c : ConsumerRow)
    → WellFormed db
    → Among c db.consumers
    → scan_limit_of db c ≤ db.message_seq
scan_limit-le_seq db c w n = elim (Option-cases c.drain_cursor) [
  | inl e ↦ rw e (max_of-le message_key db.message_seq db.messages w.log.bounded)
  | inr (limit, e) ↦ rw e (((w.registry.each c n).drains limit e).1)
]

pub scan_limit-within :
    (db : Database) (c : ConsumerRow) (limit : ℕ)
    → c.drain_cursor ≡ some limit
    → scan_limit_of db c ≤ limit
scan_limit-within db c limit e = rw e (omega arith)

module _ (self : Consumer) (lawful : ReturnsRows self.fan.pool)
    (max_messages lease_deadline now : ℕ) (db : Database) (w : WellFormed db) (c : ConsumerRow)
    (row : Among c db.consumers) (own : c.id ≡ self.id) where
  abbrev old : Leased
  old = lease_visible self max_messages lease_deadline now db

  old_held :
      (l : Lease)
      → Among l old.leases
      → (d : DeliveryRow) × Among d old.db.deliveries × (d.consumer_id ≡ self.id) × (l ≡ lease_of d)
  old_held = lease_visible-Held self lawful max_messages lease_deadline now db w

  old_only : IsLeased self max_messages (old.leases ++ []) old.db
  old_only = rw (append-nil old.leases) (record {
    keeps = lease_visible-WellFormed self lawful max_messages lease_deadline now db w;
    bounded = length-lease_visible self lawful max_messages lease_deadline now db w;
    distinct = Distinct-lease_visible self lawful max_messages lease_deadline now db w;
    held = old_held;
  })

  module _ (behind : c.scan_cursor < scan_limit_of db c) where
    pub old_row : Among c old.db.consumers
    unfolding lease_visible
    old_row = row

    in_log : scan_limit_of db c ≤ old.db.message_seq
    unfolding lease_visible
    in_log = scan_limit-le_seq db c w row

    abbrev remaining : ℕ
    remaining = max_messages - length old.leases

    w' : WellFormed old.db
    w' = lease_visible-WellFormed self lawful max_messages lease_deadline now db w

    abbrev new_ids : List ℕ
    new_ids =
        ids self lawful (scan_limit_of db c) remaining lease_deadline old.db w' c old_row own behind
          (scan_limit-within db c)

    abbrev after : Database
    after =
        next_db self lawful (scan_limit_of db c) remaining lease_deadline old.db w' c old_row own
          behind (scan_limit-within db c)

    length-new_ids : length new_ids ≤ remaining
    unfolding next_messages
    length-new_ids = omega (
      arith,
      length-map message_key (
          found self lawful (scan_limit_of db c) remaining lease_deadline old.db w' c old_row own
            behind (scan_limit-within db c)),
      length-take remaining (
          sort_by message_key (
            select (is_pending c.topic_filter c.scan_cursor (scan_limit_of db c)) old.db.messages)),
    )

    -- An old lease stands for a message below the cursor, a new one for a message above it.
    apart :
        (a b : Lease)
        → Among a old.leases
        → Among b (map new_lease new_ids)
        → a.message_id ≢ b.message_id
    apart a b m n e =
        let (d, among, mine, eq) = old_held a m in
        let r = Among-map_inv new_lease b new_ids n in
        let above =
          (ids-bounds self lawful (scan_limit_of db c) remaining lease_deadline old.db w' c old_row
            own behind (scan_limit-within db c) r.0 r.1).0 in
        not-Scanned self lawful (scan_limit_of db c) remaining lease_deadline old.db w' c old_row
          own behind (scan_limit-within db c) d.consumer_id d.message_id mine
          (omega (arith, above, e, ap lease_message_id eq, ap lease_message_id r.2))
          (w'.deliveries.scanned d among)

    both : IsLeased self max_messages (old.leases ++ map new_lease new_ids) after
    both = record {
      keeps =
          next_db-WellFormed self lawful (scan_limit_of db c) remaining lease_deadline old.db w' c
            old_row own behind (scan_limit-within db c) in_log;
      bounded = omega (
        arith,
        length-append old.leases (map new_lease new_ids),
        length-map new_lease new_ids,
        length-new_ids,
        length-lease_visible self lawful max_messages lease_deadline now db w,
      );
      distinct =
          Distinct-append lease_message_id old.leases (map new_lease new_ids)
            (Distinct-lease_visible self lawful max_messages lease_deadline now db w)
            (Distinct-of_map (λ n. n) lease_message_id new_lease new_ids (λ a. refl)
              (Ascending-Distinct (λ n. n) new_ids
                (ids-Ascending self lawful (scan_limit_of db c) remaining lease_deadline old.db w' c
                  old_row own behind (scan_limit-within db c))))
            apart;
      held = λ l n. elim (Among-append l old.leases (map new_lease new_ids) n) [
        | inl h ↦
            let (d, among, mine, eq) = old_held l h in
            (d, Among-append_left d old.db.deliveries _ among, mine, eq)
        | inr h ↦
            let r = Among-map_inv new_lease l new_ids h in
            (
              first_lease self.id lease_deadline r.0,
              Among-append_right _ old.db.deliveries _
                  (Among-map (first_lease self.id lease_deadline) r.0 new_ids r.1),
              refl,
              r.2,
            )
      ];
    }

-- If RETURNING gives each row once, the database is well-formed and has the consumer, and
-- `max_messages` fits in an `i64`, the transaction of a claim succeeds, and its leases are at most
-- `max_messages`, in the order of their message IDs, each held by a delivery with its generation and
-- each with its message.
pub claim_transaction_total :
    (self : Consumer) (max_messages lease_deadline now : ℕ) (db : Database) (c : ConsumerRow)
    → ReturnsRows self.fan.pool
    → WellFormed db
    → find_consumer db self.id ≡ some c
    → max_messages ≤ i64_max
    → (done : Claimed) × (claim_transaction self max_messages lease_deadline now db ≡ ok done)
      × IsClaimed self max_messages done
unfolding claim_transaction
claim_transaction_total self max_messages lease_deadline now db c lawful w e small =
    let at = find_where-Among (λ (x : ConsumerRow). x.id == self.id) db.consumers c e in
    let own = (==_iff c.id self.id).0 at.1 in
    let first = lease_visible self max_messages lease_deadline now db in
    let scans =
      ltb 0 (max_messages - length first.leases) && ltb c.scan_cursor (scan_limit_of db c) in
    rw (e, (leb_iff max_messages i64_max).1 small)
      (elim (Bool-cases scans) [
        | inl t ↦
            let behind = (ltb_iff c.scan_cursor (scan_limit_of db c)).0 ((&&_iff _ _).0 t).1 in
            rw
              (
                t,
                lease_new_lem self lawful (scan_limit_of db c) (max_messages - length first.leases)
                    lease_deadline first.db
                    (lease_visible-WellFormed self lawful max_messages lease_deadline now db w) c
                    (old_row self lawful max_messages lease_deadline now db w c at.0 own behind) own
                    behind (scan_limit-within db c),
              )
              (
                _,
                refl,
                IsClaimed-of self max_messages _ _ (is_some c.draining_at)
                    (both self lawful max_messages lease_deadline now db w c at.0 own behind),
              )
        | inr f ↦ rw f (
          _,
          refl,
          IsClaimed-of self max_messages _ _ (is_some c.draining_at)
              (old_only self lawful max_messages lease_deadline now db w c at.0 own),
        )
      ])
