-- ===== src/Consumer/Claim/Loss.antt =====
-- A claim loses no message: what was outstanding for the consumer stays outstanding.
use litefan.Prelude.{
  ℕ, ◌-◌, ◌≤◌, ◌<◌, ◌≡◌, refl, sym, ap, ◌∙◌, inl, inr, ◌⊎◌, Bool, true, false, ◌&&◌, Option, some,
  List, [], ◌∷◌, ◌++◌, map, arith, zero, suc, ◌==◌, ==_iff, ltb, ltb_iff, leb_iff, &&_iff, Among,
  Among-map, Among-map_inv, Among-append_right, Among-select, Among-sort_by_back, Ascending,
  sort_by-Ascending, Ascending-Distinct, Distinct-select, length, length-map, take, select, sort_by,
  update_where, exists_where, exists_where-true, exists_where-append, find_where, find_where-Among,
  Bool-cases, String, if◌then◌else◌,
}
use litefan.Error.{ok}
use litefan.Api.{Message}
use litefan.Time.{i64_max, SystemTime, now_ms, checked_add}
use litefan.Schema.{Database, ConsumerRow, DeliveryRow, find_consumer, delivers}
use litefan.Schema.WellFormed.{WellFormed, message_key}
use litefan.Storage.{ReturnsRows}
use litefan.Storage.Snapshots.{is_outstanding, is_unread}
use litefan.Store.{State}
use litefan.Consumer.{Consumer}
use litefan.Consumer.Claim.{
  Claim, Claimed, alone, claim, claim_transaction, scan_limit_of, is_pending, is_idle, matched,
  next_messages, next_cursor, first_lease, last_or, lease_visible, lease_row, is_chosen,
  lease_candidates,
}
use litefan.Consumer.Claim.Visible.{lease_visible-WellFormed}
use litefan.Consumer.Claim.New.{lease_new_lem}
use litefan.Consumer.Claim.Transaction.{old_row, scan_limit-within, claim_transaction_total}
use litefan.Consumer.Claim.Ready.{read_state, begin-idle, begin-work, answer-counts}

-- An element of a rising list is among the first `n`, or above them, and they are `n`.
take-or-above {ℓ} :
    {A : Type ℓ} (key : A → ℕ) (n : ℕ) (xs : List A) (a : A)
    → Ascending key xs
    → Among a xs
    → Among a (take n xs)
      ⊎ ((length (take n xs) ≡ n) × ((b : A) → Among b (take n xs) → key b < key a))
take-or-above key n [] a s m = elim m [ ]
take-or-above key zero (x ∷ xs) a s m = inr (refl, λ b k. elim k [ ])
take-or-above key (suc n) (x ∷ xs) a s (inl e) = inl (inl e)
take-or-above key (suc n) (x ∷ xs) a s (inr m) = elim (take-or-above key n xs a s.1 m) [
  | inl k ↦ inl (inr k)
  | inr (full, below) ↦ inr (
    omega (arith, full),
    λ b k. elim k [ inl e ↦ omega (arith, ap key e, s.0 a m) | inr j ↦ below b j ],
  )
]

last_or-below :
    (d k : ℕ) (ids : List ℕ) → d < k → ((i : ℕ) → Among i ids → i < k) → last_or d ids < k
last_or-below d k [] h below = h
last_or-below d k (x ∷ ids) h below =
    last_or-below x k ids (below x (inl refl)) (λ i n. below i (inr n))

-- A pending message is leased, or lies above the next cursor.
leased-or-above :
    (topic : Option String) (lo hi remaining : ℕ) (messages : List Message) (m : Message)
    → Ascending message_key messages
    → Among m messages
    → is_pending topic lo hi m ≡ true
    → let found = next_messages topic lo hi remaining messages in
      Among m found ⊎ (next_cursor lo hi remaining (map message_key found) < m.id)
unfolding next_messages
leased-or-above topic lo hi remaining messages m rising n pending =
    let all = sort_by message_key (select (is_pending topic lo hi) messages) in
    let sorted : Ascending message_key all =
      sort_by-Ascending message_key (select (is_pending topic lo hi) messages) (
        Distinct-select message_key (is_pending topic lo hi) messages
          (Ascending-Distinct message_key messages rising)) in
    let among : Among m all =
      Among-sort_by_back message_key m (select (is_pending topic lo hi) messages)
        (Among-select (is_pending topic lo hi) m messages n pending) in
    elim (take-or-above message_key remaining all m sorted among) [
      | inl k ↦ inl k
      | inr (full, below) ↦
          let whole : ltb (length (map message_key (take remaining all))) remaining ≡ false =
            ground (arith, full, length-map message_key (take remaining all)) in
          let behind : lo < m.id = ground (arith, pending) in
          inr (
            rw whole (
              last_or-below lo m.id (map message_key (take remaining all)) behind (λ i j.
                let (b, in_take, e) = Among-map_inv message_key i (take remaining all) j in
                omega (arith, e, below b in_take))))
    ]

find-update_where {ℓ} :
    {A : Type ℓ} (p : A → Bool) (f : A → A) (xs : List A) (c : A)
    → ((a : A) → p (f a) ≡ p a)
    → find_where p xs ≡ some c
    → find_where p (update_where p f xs) ≡ some (f c)
find-update_where p f [] c same h = cc h
find-update_where p f (x ∷ xs) c same h = elim (Bool-cases (p x)) [
  | inl t ↦
      let e : x ≡ c = cc (rw t at h) in
      let again : p (f x) ≡ true = same x ∙ t in rw (t, again) (ap (λ y. some (f y)) e)
  | inr u ↦ rw (u, u) (find-update_where p f xs c same (rw u at h))
]

exists-map {ℓ} :
    {A : Type ℓ} (p : A → Bool) (g : A → A) (xs : List A)
    → ((a : A) → p (g a) ≡ p a)
    → exists_where p (map g xs) ≡ exists_where p xs
exists-map p g [] h = refl
exists-map p g (x ∷ xs) h = ground (arith, h x, exists-map p g xs h)

-- The leases of visible rows keep every delivery.
leased-delivers :
    (self : Consumer) (max_messages lease_deadline now : ℕ) (db : Database) (id message_id : ℕ)
    → exists_where
        (delivers id message_id)
        (lease_visible self max_messages lease_deadline now db).db.deliveries
      ≡ exists_where (delivers id message_id) db.deliveries
unfolding lease_visible
leased-delivers self max_messages lease_deadline now db id message_id =
    exists-map (delivers id message_id)
      (λ (d : DeliveryRow).
        if is_chosen self.id (lease_candidates self.id now max_messages db.deliveries) d
        then lease_row lease_deadline d
        else d)
      db.deliveries (λ d. ground arith)

leased-exists :
    (id own deadline : ℕ) (rows : List DeliveryRow) (found : List Message) (m : Message)
    → id ≡ own
    → Among m found
    → exists_where
        (delivers id m.id)
        (rows ++ map (first_lease own deadline) (map message_key found))
      ≡ true
leased-exists id own deadline rows found m same n =
    exists_where-true (delivers id m.id) (first_lease own deadline m.id)
      (rows ++ map (first_lease own deadline) (map message_key found))
      (Among-append_right _ rows _ (
        Among-map (first_lease own deadline) m.id (map message_key found)
          (Among-map message_key m found n)))
      (ground (arith, same))

module _ (db db' : Database) (c : ConsumerRow) (m : Message)
    (same : db'.messages ≡ db.messages) where
  -- Nothing of the log is passed over: a delivery stays, and what is unread is delivered or unread.
  kept-outstanding :
      (cursor : ℕ)
      → (exists_where (delivers c.id m.id) db.deliveries ≡ true
          → exists_where (delivers c.id m.id) db'.deliveries ≡ true)
      → (is_unread db c m ≡ true
          → (exists_where (delivers c.id m.id) db'.deliveries ≡ true) ⊎ (cursor < m.id))
      → is_outstanding db c m ≡ true
      → is_outstanding db' (record c { scan_cursor = cursor }) m ≡ true
  kept-outstanding cursor delivered unread h =
      elim (Bool-cases (exists_where (delivers c.id m.id) db.deliveries)) [
        | inl t ↦ let q = delivered t in rw q refl
        | inr f ↦
            let pending : is_unread db c m ≡ true = rw f at h in
            elim (unread pending) [
              | inl q ↦ rw q refl
              | inr above ↦ elim (Bool-cases (exists_where (delivers c.id m.id) db'.deliveries)) [
                | inl q ↦ rw q refl
                | inr q ↦ rw (q, same) (ground (arith, pending, above))
              ]
            ]
      ]

-- Each consumer finds its row after the transaction, and all that was outstanding.
abbrev pub Keeps : Consumer → Database → ConsumerRow → Message → Database → Type 0
Keeps self db c m db' =
    (c' : ConsumerRow) × (find_consumer db' self.id ≡ some c') × (is_outstanding db' c' m ≡ true)

claim_transaction-Keeps :
    (self : Consumer) (max_messages lease_deadline now : ℕ) (db : Database) (c : ConsumerRow)
    (m : Message)
    → ReturnsRows self.fan.pool
    → WellFormed db
    → find_consumer db self.id ≡ some c
    → max_messages ≤ i64_max
    → Among m db.messages
    → is_outstanding db c m ≡ true
    → (done : Claimed) × (claim_transaction self max_messages lease_deadline now db ≡ ok done)
      × Keeps self db c m done.db
unfolding claim_transaction
claim_transaction-Keeps self max_messages lease_deadline now db c m lawful w e small n h =
    let at = find_where-Among (λ (x : ConsumerRow). x.id == self.id) db.consumers c e in
    let own = (==_iff c.id self.id).0 at.1 in
    let first = lease_visible self max_messages lease_deadline now db in
    let remaining = max_messages - length first.leases in
    let limit = scan_limit_of db c in
    let kept = leased-delivers self max_messages lease_deadline now db c.id m.id in
    let scans = ltb 0 remaining && ltb c.scan_cursor limit in
    rw (e, (leb_iff max_messages i64_max).1 small)
      (elim (Bool-cases scans) [
        | inl t ↦
            let behind = (ltb_iff c.scan_cursor limit).0 ((&&_iff _ _).0 t).1 in
            let found = next_messages c.topic_filter c.scan_cursor limit remaining db.messages in
            let after : Database = record first.db {
              deliveries =
                  first.db.deliveries
                  ++ map (first_lease self.id lease_deadline) (map message_key found);
            } in
            rw
              (
                t,
                lease_new_lem self lawful limit remaining lease_deadline first.db
                    (lease_visible-WellFormed self lawful max_messages lease_deadline now db w) c
                    (old_row self lawful max_messages lease_deadline now db w c at.0 own behind) own
                    behind (scan_limit-within db c),
              )
              (
                _,
                refl,
                (
                  record c {
                    scan_cursor = next_cursor c.scan_cursor limit remaining (map message_key found);
                  },
                  find-update_where (λ (x : ConsumerRow). x.id == self.id)
                      (λ (x : ConsumerRow). record x {
                        scan_cursor =
                            next_cursor c.scan_cursor limit remaining (map message_key found);
                      })
                      db.consumers c (λ a. refl) e,
                  kept-outstanding db after c m refl
                      (next_cursor c.scan_cursor limit remaining (map message_key found))
                      (λ q.
                        rw
                          (exists_where-append (delivers c.id m.id) first.db.deliveries
                            (map (first_lease self.id lease_deadline) (map message_key found)))
                          (rw (kept, q) refl))
                      (λ q.
                        elim (leased-or-above c.topic_filter c.scan_cursor limit remaining
                          db.messages m w.log.ascend n q) [
                            | inl k ↦ inl (
                                leased-exists c.id self.id lease_deadline first.db.deliveries found
                                  m own k)
                            | inr above ↦ inr above
                          ])
                      h,
                ),
              )
        | inr f ↦ rw f (
          _,
          refl,
          (
            c,
            e,
            kept-outstanding db first.db c m refl c.scan_cursor (λ q. kept ∙ q)
                (λ q. inr (ground (arith, q))) h,
          ),
        )
      ])

-- If RETURNING gives each row once, `max_messages` fits in an `i64`, the database is well-formed, the
-- clock reads `now` and the lease ends at a representable time, then a claim without other writers
-- succeeds, and a retained message that was outstanding for the consumer, delivered to it or still
-- to be scanned, is outstanding for it after the claim too: no message is passed over, whether or
-- not the claim had room for it.
pub claim-outstanding :
    (self : Consumer) (max_messages lease_ms : ℕ) (clock : SystemTime) (now deadline : ℕ)
    (s : State) (c : ConsumerRow) (m : Message)
    → ReturnsRows self.fan.pool
    → max_messages ≤ i64_max
    → WellFormed s.db
    → now_ms clock ≡ ok now
    → checked_add now lease_ms ≡ ok deadline
    → find_consumer s.db self.id ≡ some c
    → Among m s.db.messages
    → is_outstanding s.db c m ≡ true
    → (cl : Claim) × (s' : State) × (claim self max_messages lease_ms clock alone s ≡ (ok cl, s'))
      × Keeps self s.db c m s'.db
unfolding claim
claim-outstanding self max_messages lease_ms clock now deadline s c m lawful small w e window found
      n h =
    elim (Bool-cases (is_idle (read_state self s.db c) now)) [
      | inl idle ↦
          let begun = begin-idle self max_messages lease_ms now s.db c found idle in
          (
            record {
              deliveries = [];
              next_visible_at = (read_state self s.db c).earliest_visible_at;
              draining = (read_state self s.db c).draining;
            },
            s,
            rw (e, begun, claim) refl,
            (c, found, h),
          )
      | inr busy ↦
          let (done, run, kept) =
            claim_transaction-Keeps self max_messages deadline now s.db c m lawful w found small n
              h in
          let (done', run', good) =
            claim_transaction_total self max_messages deadline now s.db c lawful w found small in
          let same : done' ≡ done = cc (run, run') in
          let complete : matched done.leases done.messages ≡ true =
            ap (λ (d : Claimed). matched d.leases d.messages) (sym same) ∙ good.complete in
          let (c', known, still) = kept in
          let there =
            find_where-Among (λ (x : ConsumerRow). x.id == self.id) done.db.consumers c' known in
          let begun =
            begin-work self max_messages lease_ms now deadline s.db c done found busy window run in
          let (cl, answer, size) = answer-counts self now done complete (
            exists_where-true (λ (x : ConsumerRow). x.id == self.id) c' done.db.consumers there.0
              there.1) in
          (
            cl,
            record s { db = done.db },
            rw (e, begun, claim) (λ i. (answer i, record s { db = done.db })),
            kept,
          )
    ]
