-- ===== src/Storage/Snapshots.antt =====
-- src/storage.rs, `fetch_consumer_snapshots` and `count_from_row`; src/store.rs and src/consumer.rs,
-- the two `snapshot`s.
use Prim.Native.String.{compare}
use Prim.Native.Nat.{Ordering}
use litefan.Prelude.{
  ℕ, ◌+◌, String, Bool, true, false, ◌&&◌, ◌||◌, Option, none, some, List, [], ◌∷◌, ◌==◌, ltb, leb,
  if◌then◌else◌, is_some, length, select, count_where, exists_where, min_of,
}
use litefan.Error.{Result, ok, err, or_fail, counter_out_of_range, ◌>>=◌}
use litefan.Api.{
  ℤ, pos, negsuc, Filter, all, topic, Message, active, draining, ConsumerSnapshot, StoreSnapshot,
}
use litefan.Time.{u64_mod, SystemTime, now_ms}
use litefan.Schema.{Database, ConsumerRow, DeliveryRow, ArchiveRow}
use litefan.Store.{State}
use litefan.Consumer.{Consumer, deleted_error}
use litefan.Consumer.Claim.{is_pending, scan_limit_of}

-- `u64::try_from` of a column of the row
unfoldable pub count_from_row : ℤ → Result ℕ
count_from_row (pos n) = ok n
count_from_row (negsuc n) = err counter_out_of_range

-- In the order of the bytes, as SQLite compares texts.
unfoldable pub text_le : String → String → Bool
text_le a b = elim (compare a b) [ Ordering.gt ↦ false | _ ↦ true ]

unfoldable pub insert_named : ConsumerRow → List ConsumerRow → List ConsumerRow
unfolding text_le
insert_named c [] = c ∷ []
insert_named c (x ∷ xs) = if text_le c.name x.name then c ∷ x ∷ xs else x ∷ insert_named c xs

-- ORDER BY consumer.name
unfoldable pub order_by_name : List ConsumerRow → List ConsumerRow
unfolding insert_named
order_by_name [] = []
order_by_name (c ∷ cs) = insert_named c (order_by_name cs)

-- The match of `topic_filter`
abbrev pub filter_of_row : Option String → Filter
filter_of_row none = all
filter_of_row (some t) = topic t

-- message.id > scan_cursor AND message.id <= COALESCE(drain_cursor, high_water.id) AND …
abbrev pub is_unread : Database → ConsumerRow → Message → Bool
is_unread db c m = is_pending c.topic_filter c.scan_cursor (scan_limit_of db c) m

abbrev pub delivers_to : ConsumerRow → DeliveryRow → Bool
delivers_to c d = d.consumer_id == c.id

abbrev pub is_ready : ConsumerRow → ℕ → DeliveryRow → Bool
is_ready c now d = d.consumer_id == c.id && leb d.visible_at now

abbrev pub is_waiting : ConsumerRow → ℕ → DeliveryRow → Bool
is_waiting c now d = d.consumer_id == c.id && ltb now d.visible_at

abbrev pub is_outstanding : Database → ConsumerRow → Message → Bool
is_outstanding db c m =
    exists_where (λ (d : DeliveryRow). d.consumer_id == c.id && d.message_id == m.id) db.deliveries
    || is_unread db c m

-- One row of the query.
unfoldable pub snapshot_of : Database → ℕ → ConsumerRow → Result ConsumerSnapshot
unfolding count_from_row
snapshot_of db now c = do
  let unread = count_where (is_unread db c) db.messages
  outstanding ← count_from_row (pos (count_where (delivers_to c) db.deliveries + unread))
  ready ← count_from_row (pos (count_where (is_ready c now) db.deliveries + unread))
  archived ←
      count_from_row (pos (count_where (λ (a : ArchiveRow). a.consumer_id == c.id) db.archives))
  ok (record {
    name = c.name;
    filter = filter_of_row c.topic_filter;
    state = if is_some c.draining_at then draining else active;
    created_at_ms = c.created_at;
    draining_at_ms = c.draining_at;
    outstanding = outstanding;
    ready = ready;
    next_ready_at_ms =
        min_of (λ (d : DeliveryRow). d.visible_at) (select (is_waiting c now) db.deliveries);
    oldest_outstanding_at_ms =
        min_of (λ (m : Message). m.published_at_ms) (select (is_outstanding db c) db.messages);
    archived = archived;
  })

-- `for row in rows`
unfoldable pub snapshots_of : Database → ℕ → List ConsumerRow → Result (List ConsumerSnapshot)
unfolding snapshot_of
snapshots_of db now [] = ok []
snapshots_of db now (c ∷ cs) = do
  s ← snapshot_of db now c
  rest ← snapshots_of db now cs
  ok (s ∷ rest)

abbrev pub is_asked : Option ℕ → ConsumerRow → Bool
is_asked none c = true
is_asked (some id) c = c.id == id

unfoldable pub fetch_consumer_snapshots : Database → ℕ → Option ℕ → Result (List ConsumerSnapshot)
unfolding order_by_name snapshots_of
fetch_consumer_snapshots db now consumer_id =
    snapshots_of db now (order_by_name (select (is_asked consumer_id) db.consumers))

-- `Vec::pop`
abbrev pub pop {ℓ} : {A : Type ℓ} → List A → Option A
pop [] = none
pop (x ∷ []) = some x
pop (x ∷ y ∷ xs) = pop (y ∷ xs)

-- `Consumer::snapshot`
unfoldable pub consumer_snapshot : Consumer → SystemTime → State → Result ConsumerSnapshot
unfolding fetch_consumer_snapshots
consumer_snapshot self clock s = do
  now ← now_ms clock
  snapshots ← fetch_consumer_snapshots s.db now (some self.id)
  or_fail (deleted_error self) (pop snapshots)

-- `u64::checked_add`
unfoldable pub checked_count : ℕ → ℕ → Result ℕ
checked_count a b = if ltb (a + b) u64_mod then ok (a + b) else err counter_out_of_range

-- `try_fold` of one counter over the consumers
unfoldable pub total_of : (ConsumerSnapshot → ℕ) → ℕ → List ConsumerSnapshot → Result ℕ
unfolding checked_count
total_of counter total [] = ok total
total_of counter total (s ∷ rest) = do
  sum ← checked_count total (counter s)
  total_of counter sum rest

-- `LiteFan::snapshot`
unfoldable pub store_snapshot : SystemTime → State → Result StoreSnapshot
unfolding fetch_consumer_snapshots total_of count_from_row
store_snapshot clock s = do
  now ← now_ms clock
  consumers ← fetch_consumer_snapshots s.db now none
  outstanding ← total_of (λ (c : ConsumerSnapshot). c.outstanding) 0 consumers
  archived ← total_of (λ (c : ConsumerSnapshot). c.archived) 0 consumers
  retained ← count_from_row (pos (length s.db.messages))
  keys ← count_from_row (pos (length s.db.idempotency))
  ok (record {
    retained_messages = retained;
    idempotency_keys = keys;
    outstanding_deliveries = outstanding;
    archived_deliveries = archived;
    consumers = consumers;
  })
