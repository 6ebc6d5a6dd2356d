-- ===== src/Consumer/Claim/Ready.antt =====
-- A claim takes what the snapshot shows as ready.
use litefan.Prelude.{
  ℕ, ◌≤◌, ◌≡◌, refl, sym, ap, ◌∙◌, inl, inr, ◌⊎◌, true, false, not, none, some, List, [], ◌∷◌,
  arith, ◌==◌, ==_iff, leb, leb_iff, if◌then◌else◌, min, &&_iff, length, is_nil, count_where,
  exists_where-Among, find_where-none, find_where-Among, min_of, select, Bool-cases, Option-cases,
  subst, is_some,
}
use litefan.Error.{Result, ok, ◌>>=◌}
use litefan.Api.{Message, ConsumerSnapshot}
use litefan.Time.{i64_max, SystemTime, now_ms, checked_add}
use litefan.Schema.{Database, ConsumerRow, DeliveryRow, find_consumer, has_consumer}
use litefan.Schema.WellFormed.{WellFormed}
use litefan.Storage.{Lease, ReturnsRows}
use litefan.Storage.Snapshots.{consumer_snapshot}
use litefan.Storage.Counts.{IsSnapshot, ready-or-waiting, consumer_snapshot-IsSnapshot}
use litefan.Store.{State}
use litefan.Consumer.{Consumer}
use litefan.Consumer.Claim.{
  Claim, Claimed, ScanState, alone, scan_state, is_idle, is_visible, retry_ready, claim_transaction,
  claim_begin, claim_answer, claim, matched, to_deliveries, empty_claim, scan_limit_of,
}
use litefan.Consumer.Claim.Transaction.{claim_transaction_total}
use litefan.Consumer.Claim.Counts.{ready_of, length-claim_transaction, idle-visible, count-pending}

length-matched :
    (id : ℕ) (ls : List Lease) (ms : List Message)
    → matched ls ms ≡ true
    → length (to_deliveries id ls ms) ≡ length ls
unfolding matched to_deliveries
length-matched id [] [] h = refl
length-matched id [] (m ∷ ms) h = cc h
length-matched id (l ∷ ls) [] h = cc h
length-matched id (l ∷ ls) (m ∷ ms) h = omega (arith, length-matched id ls ms ((&&_iff _ _).0 h).1)

find_consumer-known :
    (db : Database) (id : ℕ)
    → has_consumer db id ≡ true
    → (c : ConsumerRow) × (find_consumer db id ≡ some c)
find_consumer-known db id h = elim (Option-cases (find_consumer db id)) [
  | inr r ↦ r
  | inl gone ↦
      let (c, among, mine) = exists_where-Among (λ (x : ConsumerRow). x.id == id) db.consumers h in
      cc (mine, find_where-none (λ (x : ConsumerRow). x.id == id) c db.consumers gone among)
]

-- The state that `claim` reads first.
abbrev pub read_state : Consumer → Database → ConsumerRow → ScanState
read_state self db c = record {
  draining = is_some c.draining_at;
  scan_cursor = c.scan_cursor;
  scan_limit = scan_limit_of db c;
  earliest_visible_at =
      min_of (λ (d : DeliveryRow). d.visible_at)
        (select (λ (d : DeliveryRow). d.consumer_id == self.id) db.deliveries);
}

-- The answer carries one delivery to a lease.
pub answer-counts :
    (self : Consumer) (now : ℕ) (done : Claimed)
    → matched done.leases done.messages ≡ true
    → has_consumer done.db self.id ≡ true
    → (cl : Claim) × (claim_answer self now done done.db ≡ ok cl)
      × (length cl.deliveries ≡ length done.leases)
unfolding claim_answer scan_state empty_claim
answer-counts self now done complete known =
    let (c, found) = find_consumer-known done.db self.id known in
    elim (Bool-cases (is_nil done.leases)) [
      | inl t ↦ (
        empty_claim now (read_state self done.db c),
        rw (complete, t, found) refl,
        nil done.leases t,
      )
      | inr f ↦ (
        record {
          deliveries = to_deliveries self.id done.leases done.messages;
          next_visible_at = none;
          draining = done.draining;
        },
        rw (complete, f) refl,
        length-matched self.id done.leases done.messages complete,
      )
    ]
  where
    nil : (ls : List Lease) → is_nil ls ≡ true → 0 ≡ length ls
    nil [] e = refl
    nil (l ∷ ls) e = cc e

-- Nothing is ready for a consumer that `claim` finds idle.
idle-ready :
    (self : Consumer) (now : ℕ) (db : Database) (c : ConsumerRow)
    → c.id ≡ self.id
    → is_idle (read_state self db c) now ≡ true
    → ready_of db now c ≡ 0
idle-ready self now db c own h =
    let parts =
      (&&_iff (not (retry_ready (read_state self db c).earliest_visible_at now))
          (leb (scan_limit_of db c) c.scan_cursor)).0
        h in
    let waits : retry_ready (read_state self db c).earliest_visible_at now ≡ false =
      ground (arith, parts.0) in
    let leased : count_where (is_visible c.id now) db.deliveries ≡ 0 =
      idle-visible c.id now db.deliveries (rw own waits) in
    omega (
      arith,
      leased,
      count-pending c.topic_filter c.scan_cursor (scan_limit_of db c) db.messages
          ((leb_iff (scan_limit_of db c) c.scan_cursor).0 parts.1),
    )

pub begin-idle :
    (self : Consumer) (max_messages lease_ms now : ℕ) (db : Database) (c : ConsumerRow)
    → find_consumer db self.id ≡ some c
    → is_idle (read_state self db c) now ≡ true
    → claim_begin self max_messages lease_ms now alone db
      ≡ ok (
          inl (record {
            deliveries = [];
            next_visible_at = (read_state self db c).earliest_visible_at;
            draining = (read_state self db c).draining;
          }))
unfolding claim_begin scan_state
begin-idle self max_messages lease_ms now db c found idle = rw (found, idle) refl

scan_state-eq :
    (self : Consumer) (db : Database) (c : ConsumerRow)
    → find_consumer db self.id ≡ some c
    → scan_state self db ≡ ok (read_state self db c)
unfolding scan_state
scan_state-eq self db c found = rw found refl

-- What `claim` does with the state that it read.
abbrev begin_rest : Consumer → ℕ → ℕ → ℕ → Database → ScanState → Result (Claim ⊎ Claimed)
begin_rest self max_messages lease_ms now db state =
    if is_idle state now
    then ok (
        inl (record {
          deliveries = [];
          next_visible_at = state.earliest_visible_at;
          draining = state.draining;
        }))
    else (checked_add now lease_ms >>= λ deadline.
        claim_transaction self max_messages deadline now db >>= λ done. ok (inr done))

begin_rest-work :
    (self : Consumer) (max_messages lease_ms now deadline : ℕ) (db : Database) (state : ScanState)
    (done : Claimed)
    → is_idle state now ≡ false
    → checked_add now lease_ms ≡ ok deadline
    → claim_transaction self max_messages deadline now db ≡ ok done
    → begin_rest self max_messages lease_ms now db state ≡ ok (inr done)
begin_rest-work self max_messages lease_ms now deadline db state done busy window run =
    rw (busy, window, run) refl

pub begin-work :
    (self : Consumer) (max_messages lease_ms now deadline : ℕ) (db : Database) (c : ConsumerRow)
    (done : Claimed)
    → find_consumer db self.id ≡ some c
    → is_idle (read_state self db c) now ≡ false
    → checked_add now lease_ms ≡ ok deadline
    → claim_transaction self max_messages deadline now db ≡ ok done
    → claim_begin self max_messages lease_ms now alone db ≡ ok (inr done)
unfolding claim_begin
begin-work self max_messages lease_ms now deadline db c done found busy window run =
    ap (λ (r : Result ScanState). r >>= begin_rest self max_messages lease_ms now db)
      (scan_state-eq self db c found)
    ∙ begin_rest-work self max_messages lease_ms now deadline db (read_state self db c) done busy
        window run

claim-takes :
    (self : Consumer) (max_messages lease_ms : ℕ) (clock : SystemTime) (now deadline : ℕ)
    (s : State) (c : ConsumerRow)
    → ReturnsRows self.fan.pool
    → max_messages ≤ i64_max
    → WellFormed s.db
    → now_ms clock ≡ ok now
    → checked_add now lease_ms ≡ ok deadline
    → find_consumer s.db self.id ≡ some c
    → (cl : Claim) × (s' : State) × (claim self max_messages lease_ms clock alone s ≡ (ok cl, s'))
      × (length cl.deliveries ≡ min max_messages (ready_of s.db now c))
unfolding claim
claim-takes self max_messages lease_ms clock now deadline s c lawful small w e window found =
    let at = find_where-Among (λ (x : ConsumerRow). x.id == self.id) s.db.consumers c found in
    let own = (==_iff c.id self.id).0 at.1 in
    elim (Bool-cases (is_idle (read_state self s.db c) now)) [
      | inl idle ↦
          let begun = begin-idle self max_messages lease_ms now s.db c found idle in
          (
            record {
              deliveries = [];
              next_visible_at = (read_state self s.db c).earliest_visible_at;
              draining = (read_state self s.db c).draining;
            },
            s,
            rw (e, begun, claim) refl,
            omega (arith, idle-ready self now s.db c own idle),
          )
      | inr busy ↦
          let (done, run, counted, known) =
            length-claim_transaction self max_messages deadline now s.db c lawful w found small in
          let (done', run', good) =
            claim_transaction_total self max_messages deadline now s.db c lawful w found small in
          let same : done' ≡ done = cc (run, run') in
          let complete : matched done.leases done.messages ≡ true =
            ap (λ (d : Claimed). matched d.leases d.messages) (sym same) ∙ good.complete in
          let begun =
            begin-work self max_messages lease_ms now deadline s.db c done found busy window run in
          let (cl, answer, size) = answer-counts self now done complete known in
          (
            cl,
            record s { db = done.db },
            rw (e, begun, claim) (λ i. (answer i, record s { db = done.db })),
            size ∙ counted,
          )
    ]

-- If RETURNING gives each row once, `max_messages` fits in an `i64`, the database is well-formed, the
-- clock reads `now` and the lease ends at a representable time, and a snapshot of the consumer at the
-- same time shows `ready` deliveries, then a claim without other writers succeeds and hands out
-- exactly the lesser of `max_messages` and `ready`.
pub claim-ready :
    (self : Consumer) (max_messages lease_ms : ℕ) (clock : SystemTime) (now deadline : ℕ)
    (s : State) (c : ConsumerRow) (snap : ConsumerSnapshot)
    → ReturnsRows self.fan.pool
    → max_messages ≤ i64_max
    → WellFormed s.db
    → now_ms clock ≡ ok now
    → checked_add now lease_ms ≡ ok deadline
    → find_consumer s.db self.id ≡ some c
    → consumer_snapshot self clock s ≡ ok snap
    → (cl : Claim) × (s' : State) × (claim self max_messages lease_ms clock alone s ≡ (ok cl, s'))
      × (length cl.deliveries ≡ min max_messages snap.ready)
claim-ready self max_messages lease_ms clock now deadline s c snap lawful small w e window found
      shown =
    let (cl, s', run, size) =
      claim-takes self max_messages lease_ms clock now deadline s c lawful small w e window found in
    let (snap', run', good') = consumer_snapshot-IsSnapshot self clock now s c w e found in
    let same : snap' ≡ snap = cc (shown, run') in
    let good : IsSnapshot s.db now c snap = subst (IsSnapshot s.db now c) same good' in
    (
      cl,
      s',
      run,
      size
          ∙ ap (min max_messages) (
              omega (
                arith,
                good.outstanding,
                good.ready_le,
                good.not_ready_eq,
                ready-or-waiting c now s.db.deliveries,
              )),
    )
