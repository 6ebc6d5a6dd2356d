-- ===== src/Consumer/Claim.antt =====
-- src/consumer.rs, `claim`: the read-only check, the transaction that leases deliveries and advances
-- the cursor, and the answer. Other connections may commit between these; `Interleaving` says what.
pub mod Fetch
pub mod Visible
pub mod New
pub mod Keeps
pub mod Transaction
pub mod Answer
pub mod Outcome
pub mod Receipts
pub mod Counts
pub mod Ready
pub mod Loss
use litefan.Prelude.{
  ℕ, ◌+◌, ◌-◌, String, Bool, true, false, not, ◌&&◌, Option, none, some, List, [], ◌∷◌, ◌++◌, map,
  ◌==◌, ltb, leb, text_eq, if◌then◌else◌, is_some, or_default, length, is_nil, take, inl, inr, ◌⊎◌,
  chunks, sort_by, select, update_where, exists_where, min_of,
}
use litefan.Error.{Result, ok, err, or_fail, invalid_poll, storage_invariant, ◌>>=◌}
use litefan.Api.{Message, Delivery}
use litefan.Time.{SystemTime, now_ms, checked_add, fits_i64}
use litefan.Schema.{
  Database, ConsumerRow, DeliveryRow, high_water, find_consumer, insert_deliveries,
  update_consumers,
}
use litefan.Schema.WellFormed.{message_key}
use litefan.Storage.{Lease, max_sql_variables}
use litefan.Store.{State}
use litefan.Consumer.{Consumer, deleted_error}

pub record Claim : Type 0 where
  pub deliveries : List Delivery
  pub next_visible_at : Option ℕ
  pub draining : Bool

-- One row of the query that `claim` makes before its transaction and after it.
pub record ScanState : Type 0 where
  pub draining : Bool
  pub scan_cursor : ℕ
  pub scan_limit : ℕ
  pub earliest_visible_at : Option ℕ

-- COALESCE(drain_cursor, (SELECT COALESCE(MAX(id), 0) FROM litefan_messages))
abbrev pub scan_limit_of : Database → ConsumerRow → ℕ
scan_limit_of db c = or_default c.drain_cursor (high_water db)

unfoldable pub scan_state : Consumer → Database → Result ScanState
scan_state self db = do
  c ← or_fail (deleted_error self) (find_consumer db self.id)
  ok (record {
    draining = is_some c.draining_at;
    scan_cursor = c.scan_cursor;
    scan_limit = scan_limit_of db c;
    earliest_visible_at =
        min_of (λ (d : DeliveryRow). d.visible_at)
          (select (λ (d : DeliveryRow). d.consumer_id == self.id) db.deliveries);
  })

abbrev pub retry_ready : Option ℕ → ℕ → Bool
retry_ready none now = false
retry_ready (some visible_at) now = leb visible_at now

-- Nothing is visible and the cursor has reached the limit.
abbrev pub is_idle : ScanState → ℕ → Bool
is_idle state now =
    not (retry_ready state.earliest_visible_at now) && leb state.scan_limit state.scan_cursor

-- WHERE consumer_id = ? AND visible_at <= ?
abbrev pub is_visible : ℕ → ℕ → DeliveryRow → Bool
is_visible id now d = d.consumer_id == id && leb d.visible_at now

-- The keys that the subquery of the lease selects: earliest first, then by message.
unfoldable pub lease_candidates : ℕ → ℕ → ℕ → List DeliveryRow → List ℕ
lease_candidates id now max_messages rows =
    map (λ (d : DeliveryRow). d.message_id)
      (take max_messages (
        sort_by (λ (d : DeliveryRow). d.visible_at)
          (sort_by (λ (d : DeliveryRow). d.message_id) (select (is_visible id now) rows))))

abbrev pub is_chosen : ℕ → List ℕ → DeliveryRow → Bool
is_chosen id chosen d = d.consumer_id == id && exists_where (λ m. m == d.message_id) chosen

abbrev pub lease_row : ℕ → DeliveryRow → DeliveryRow
lease_row lease_deadline d = record d {
  visible_at = lease_deadline;
  generation = d.generation + 1;
  delivery_count = d.delivery_count + 1;
}

abbrev pub lease_of : DeliveryRow → Lease
lease_of d = record {
  message_id = d.message_id;
  generation = d.generation;
  delivery_count = d.delivery_count;
}

abbrev pub matches_topic : Option String → Option String → Bool
matches_topic none message_topic = true
matches_topic (some t) none = false
matches_topic (some t) (some u) = text_eq u t

-- id > scan_cursor AND id <= scan_limit AND topic = ?
abbrev pub is_pending : Option String → ℕ → ℕ → Message → Bool
is_pending topic scan_cursor scan_limit m =
    ltb scan_cursor m.id && leb m.id scan_limit && matches_topic topic m.topic

unfoldable pub next_messages : Option String → ℕ → ℕ → ℕ → List Message → List Message
next_messages topic scan_cursor scan_limit remaining messages =
    take remaining (sort_by message_key (select (is_pending topic scan_cursor scan_limit) messages))

abbrev pub first_lease : ℕ → ℕ → ℕ → DeliveryRow
first_lease id lease_deadline message_id = record {
  consumer_id = id;
  message_id = message_id;
  visible_at = lease_deadline;
  generation = 1;
  delivery_count = 1;
}

abbrev pub last_or : ℕ → List ℕ → ℕ
last_or d [] = d
last_or d (x ∷ xs) = last_or x xs

abbrev pub new_lease : ℕ → Lease
new_lease message_id = record { message_id = message_id; generation = 1; delivery_count = 1 }

abbrev pub lease_message_id : Lease → ℕ
lease_message_id l = l.message_id

pub record Leased : Type 0 where
  pub leases : List Lease
  pub db : Database

-- UPDATE litefan_deliveries … RETURNING
unfoldable pub lease_visible : Consumer → ℕ → ℕ → ℕ → Database → Leased
unfolding lease_candidates
lease_visible self max_messages lease_deadline now db =
    let chosen = is_chosen self.id (lease_candidates self.id now max_messages db.deliveries) in
    record {
      leases =
          self.fan.pool.returning_leases
            (map lease_of (map (lease_row lease_deadline) (select chosen db.deliveries)));
      db = record db { deliveries = update_where chosen (lease_row lease_deadline) db.deliveries };
    }

-- `if found < remaining { scan_limit } else { the last new ID }`
abbrev pub next_cursor : ℕ → ℕ → ℕ → List ℕ → ℕ
next_cursor scan_cursor scan_limit remaining new_ids =
    if ltb (length new_ids) remaining then scan_limit else last_or scan_cursor new_ids

-- INSERT … SELECT … RETURNING message_id, and the new cursor.
unfoldable pub lease_new : Consumer → ConsumerRow → ℕ → ℕ → ℕ → Database → Result Leased
unfolding next_messages
lease_new self c scan_limit remaining lease_deadline db = do
  let found = next_messages c.topic_filter c.scan_cursor scan_limit remaining db.messages
  let ids = map message_key found
  db' ← insert_deliveries db (map (first_lease self.id lease_deadline) ids)
  let new_ids = sort_by (λ id. id) (self.fan.pool.returning_ids ids)
  db'' ←
      update_consumers db' (λ (x : ConsumerRow). x.id == self.id)
        (λ x. record x { scan_cursor = next_cursor c.scan_cursor scan_limit remaining new_ids })
  ok (record { leases = map new_lease new_ids; db = db'' })

-- SELECT … WHERE id IN (…) ORDER BY id, for each chunk of leases.
unfoldable pub fetch_chunks : List Message → List (List Lease) → List Message
fetch_chunks messages [] = []
fetch_chunks messages (c ∷ cs) =
    sort_by message_key
      (select (λ (m : Message). exists_where (λ (l : Lease). l.message_id == m.id) c) messages)
    ++ fetch_chunks messages cs

unfoldable pub fetch_messages : List Message → List Lease → List Message
unfolding fetch_chunks
fetch_messages messages leases =
    sort_by message_key (fetch_chunks messages (chunks max_sql_variables leases))

pub record Claimed : Type 0 where
  pub leases : List Lease
  pub messages : List Message
  pub draining : Bool
  pub db : Database

-- The whole transaction, up to its commit.
unfoldable pub claim_transaction : Consumer → ℕ → ℕ → ℕ → Database → Result Claimed
unfolding lease_visible lease_new fetch_messages
claim_transaction self max_messages lease_deadline now db = do
  c ← or_fail (deleted_error self) (find_consumer db self.id)
  let scan_limit = scan_limit_of db c
  if fits_i64 max_messages
      then (do
        let old = lease_visible self max_messages lease_deadline now db
        let remaining = max_messages - length old.leases
        new ←
            if ltb 0 remaining && ltb c.scan_cursor scan_limit
            then lease_new self c scan_limit remaining lease_deadline old.db
            else ok (record { leases = []; db = old.db })
        let leases = sort_by lease_message_id (old.leases ++ new.leases)
        ok (record {
          leases = leases;
          messages = fetch_messages new.db.messages leases;
          draining = is_some c.draining_at;
          db = new.db;
        }))
      else err (invalid_poll "max_messages is too large")

-- `messages.len() == leases.len()`, and no pair of `zip` with two IDs
unfoldable pub matched : List Lease → List Message → Bool
matched [] [] = true
matched [] (m ∷ ms) = false
matched (l ∷ ls) [] = false
matched (l ∷ ls) (m ∷ ms) = l.message_id == m.id && matched ls ms

-- `leases.into_iter().zip(messages)`
unfoldable pub to_deliveries : ℕ → List Lease → List Message → List Delivery
to_deliveries id [] ms = []
to_deliveries id (l ∷ ls) [] = []
to_deliveries id (l ∷ ls) (m ∷ ms) =
    record {
      message = m;
      delivery_count = l.delivery_count;
      receipt = record { consumer_id = id; message_id = l.message_id; generation = l.generation };
    }
    ∷ to_deliveries id ls ms

-- The answer to an empty claim, from a last look at the database.
unfoldable pub empty_claim : ℕ → ScanState → Claim
empty_claim now state = record {
  deliveries = [];
  next_visible_at =
      if ltb state.scan_cursor state.scan_limit then some now else state.earliest_visible_at;
  draining = state.draining;
}

-- After the commit: a failure from here on leaves the leases in the database.
unfoldable pub claim_answer : Consumer → ℕ → Claimed → Database → Result Claim
unfolding matched to_deliveries empty_claim
claim_answer self now done later =
    if matched done.leases done.messages
    then (if is_nil done.leases
        then (do state ← scan_state self later; ok (empty_claim now state))
        else ok (record {
          deliveries = to_deliveries self.id done.leases done.messages;
          next_visible_at = none;
          draining = done.draining;
        }))
    else err (storage_invariant "a claimed delivery has no matching message")

-- What other connections commit before the transaction of a claim, and after it.
pub record Interleaving : Type 0 where
  pub before : Database → Database
  pub after : Database → Database

abbrev pub alone : Interleaving
alone = record { before = λ db. db; after = λ db. db }

-- The part of `claim` that comes before the commit: an idle answer, or the committed transaction.
unfoldable pub claim_begin :
    Consumer → ℕ → ℕ → ℕ → Interleaving → Database → Result (Claim ⊎ Claimed)
unfolding scan_state claim_transaction
claim_begin self max_messages lease_ms now others db = do
  state ← scan_state self db
  if is_idle state now
      then ok (
          inl (record {
            deliveries = [];
            next_visible_at = state.earliest_visible_at;
            draining = state.draining;
          }))
      else (do
        lease_deadline ← checked_add now lease_ms
        done ← claim_transaction self max_messages lease_deadline now (others.before db)
        ok (inr done))

unfoldable pub claim : Consumer → ℕ → ℕ → SystemTime → Interleaving → State → Result Claim × State
unfolding claim_begin claim_answer
claim self max_messages lease_ms clock others s = elim (now_ms clock) [
  | err e ↦ (err e, s)
  | ok now ↦ elim (claim_begin self max_messages lease_ms now others s.db) [
    | err e ↦ (err e, record s { db = others.before s.db })
    | ok (inl idle) ↦ (ok idle, s)
    | ok (inr done) ↦
        (claim_answer self now done (others.after done.db), record s { db = others.after done.db })
  ]
]
