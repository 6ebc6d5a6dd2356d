-- ===== src/Consumer/Receipts.antt =====
-- src/consumer.rs, the mutations that a receipt authorises: `ack`, `nack` and `extend_visibility`,
-- with their batches. A batch runs one statement for each chunk of receipts.
pub mod Chunks
pub mod Releases
pub mod Fencing
pub mod Stale
pub mod Keeps
use litefan.Prelude.{
  ℕ, ◌+◌, ◌-◌, max, Bool, List, [], ◌∷◌, ◌==◌, ltb, if◌then◌else◌, length, is_nil, chunks,
  delete_where, update_where, count_where,
}
use litefan.Error.{Result, ok, err, invalid_visibility_timeout, ◌>>=◌, ◌>>◌}
use litefan.Api.{Duration, Receipt, Retry, delay, BatchResult, default_batch_result}
use litefan.Time.{SystemTime, now_ms, duration_ms, add_duration}
use litefan.Schema.{Database, DeliveryRow}
use litefan.Signals.{notify}
use litefan.Storage.{receipts_per_chunk, owns}
use litefan.Store.{State, ensure_batch_size}
use litefan.Consumer.{Consumer}

pub record Applied : Type 0 where
  pub applied : ℕ
  pub rows : List DeliveryRow

-- `for receipts in receipts.chunks(RECEIPTS_PER_CHUNK)`, with the statement of the loop's body.
unfoldable pub for_chunks :
    ℕ
    → (List Receipt → List DeliveryRow → List DeliveryRow)
    → List (List Receipt)
    → List DeliveryRow
    → Applied
for_chunks id statement [] rows = record { applied = 0; rows = rows }
for_chunks id statement (c ∷ cs) rows =
    let rest = for_chunks id statement cs (statement c rows) in
    record { applied = count_where (owns id c) rows + rest.applied; rows = rest.rows }

-- DELETE FROM litefan_deliveries WHERE …
abbrev pub delete_receipts : ℕ → List Receipt → List DeliveryRow → List DeliveryRow
delete_receipts id receipts rows = delete_where (owns id receipts) rows

abbrev pub release : ℕ → DeliveryRow → DeliveryRow
release visible_at d = record d { visible_at = visible_at; generation = d.generation + 1 }

-- SET visible_at = ?, generation = generation + 1
abbrev pub release_receipts : ℕ → ℕ → List Receipt → List DeliveryRow → List DeliveryRow
release_receipts id visible_at receipts rows =
    update_where (owns id receipts) (release visible_at) rows

abbrev pub prolong : ℕ → DeliveryRow → DeliveryRow
prolong visible_at d = record d { visible_at = max d.visible_at visible_at }

-- SET visible_at = MAX(visible_at, ?)
abbrev pub extend_receipts : ℕ → ℕ → List Receipt → List DeliveryRow → List DeliveryRow
extend_receipts id visible_at receipts rows =
    update_where (owns id receipts) (prolong visible_at) rows

abbrev pub batch_result : List Receipt → ℕ → BatchResult
batch_result receipts applied = record { applied = applied; stale = length receipts - applied }

abbrev pub with_deliveries : State → List DeliveryRow → State
with_deliveries s rows = record s { db = record s.db { deliveries = rows } }

abbrev pub notified : Consumer → State → State
notified self s = record s {
  signals = record s.signals { heap = notify self.consumer_signal s.signals.heap };
}

unfoldable pub ack_batch : Consumer → List Receipt → State → Result (BatchResult × State)
unfolding for_chunks
ack_batch self receipts s = if is_nil receipts then ok (default_batch_result, s) else do
  ensure_batch_size self.fan (length receipts)
  let done =
      for_chunks self.id (delete_receipts self.id) (chunks receipts_per_chunk receipts)
        s.db.deliveries
  ok (batch_result receipts done.applied, with_deliveries s done.rows)

unfoldable pub ack : Consumer → Receipt → State → Result (Bool × State)
unfolding ack_batch
ack self receipt s = do r ← ack_batch self (receipt ∷ []) s; ok (r.0.applied == 1, r.1)

unfoldable pub nack_batch :
    Consumer → List Receipt → Retry → SystemTime → State → Result (BatchResult × State)
unfolding for_chunks
nack_batch self receipts retry clock s =
    if is_nil receipts then ok (default_batch_result, s) else do
      ensure_batch_size self.fan (length receipts)
      now ← now_ms clock
      visible_at ← add_duration now (delay retry)
      let done =
          for_chunks self.id (release_receipts self.id visible_at)
            (chunks receipts_per_chunk receipts) s.db.deliveries
      let s' = with_deliveries s done.rows
      ok (batch_result receipts done.applied, if ltb 0 done.applied then notified self s' else s')

unfoldable pub nack : Consumer → Receipt → Retry → SystemTime → State → Result (Bool × State)
unfolding nack_batch
nack self receipt retry clock s = do
  r ← nack_batch self (receipt ∷ []) retry clock s
  ok (r.0.applied == 1, r.1)

unfoldable pub extend_visibility_batch :
    Consumer → List Receipt → Duration → SystemTime → State → Result (BatchResult × State)
unfolding for_chunks
extend_visibility_batch self receipts visibility_timeout clock s =
    if is_nil receipts then ok (default_batch_result, s) else do
      ensure_batch_size self.fan (length receipts)
      ms ← duration_ms visibility_timeout
      if ms == 0 then err invalid_visibility_timeout else do
        now ← now_ms clock
        visible_at ← add_duration now visibility_timeout
        let done =
            for_chunks self.id (extend_receipts self.id visible_at)
              (chunks receipts_per_chunk receipts) s.db.deliveries
        ok (batch_result receipts done.applied, with_deliveries s done.rows)

unfoldable pub extend_visibility :
    Consumer → Receipt → Duration → SystemTime → State → Result (Bool × State)
unfolding extend_visibility_batch
extend_visibility self receipt visibility_timeout clock s = do
  r ← extend_visibility_batch self (receipt ∷ []) visibility_timeout clock s
  ok (r.0.applied == 1, r.1)
