-- ===== src/Consumer/Receipts/Fencing.antt =====
-- A receipt authorises one attempt: what each call does with a receipt that is current, and with one
-- that is stale.
use litefan.Prelude.{
  ℕ, ◌≤◌, ◌<◌, ◌≡◌, Bool, true, List, [], ◌∷◌, arith, chunks, count_where, exists_where,
  if◌then◌else◌, Distinct, count-zero, count-one, count_le_one,
}
use litefan.Error.{ok}
use litefan.Api.{Receipt, Retry, Duration, delay}
use litefan.Time.{SystemTime, now_ms, add_duration, duration_ms}
use litefan.Schema.{DeliveryRow}
use litefan.Schema.WellFormed.{delivery_key}
use litefan.Storage.{receipts_per_chunk, owns, receipt_predicate}
use litefan.Store.{State, ensure_batch_size}
use litefan.Consumer.{Consumer}
use litefan.Consumer.Receipts.{
  for_chunks, delete_receipts, release_receipts, extend_receipts, ack, nack, extend_visibility,
  with_deliveries, notified,
}

-- The receipt is this consumer's and names a delivery at the delivery's generation.
abbrev pub is_current : Consumer → Receipt → State → Bool
is_current self receipt s = exists_where (owns self.id (receipt ∷ [])) s.db.deliveries

pub owns_one :
    (id : ℕ) (r : Receipt) (d : DeliveryRow)
    → owns id (r ∷ []) d ≡ true
    → (d.consumer_id ≡ id)
      × (r.consumer_id ≡ d.consumer_id)
      × (r.message_id ≡ d.message_id)
      × (r.generation ≡ d.generation)
unfolding owns receipt_predicate
owns_one id r d h = ground arith

-- One receipt names at most one delivery.
pub count-owns-le :
    (id : ℕ) (r : Receipt) (rows : List DeliveryRow)
    → Distinct delivery_key rows
    → count_where (owns id (r ∷ [])) rows ≤ 1
count-owns-le id r rows d =
    count_le_one delivery_key (owns id (r ∷ [])) rows d
      λ a b t u. ground (arith, owns_one id r a, owns_one id r b)

count-owns :
    (id : ℕ) (r : Receipt) (rows : List DeliveryRow)
    → Distinct delivery_key rows
    → count_where (owns id (r ∷ [])) rows ≡ (if exists_where (owns id (r ∷ [])) rows then 1 else 0)
count-owns id r rows d = ground (
  arith,
  count-one (owns id (r ∷ [])) rows (count-owns-le id r rows d),
  count-zero (owns id (r ∷ [])) rows,
)

-- A batch of one receipt is one chunk, and applies once or not at all.
pub for_chunks-one :
    (id : ℕ) (statement : List Receipt → List DeliveryRow → List DeliveryRow) (r : Receipt)
    (rows : List DeliveryRow)
    → Distinct delivery_key rows
    → for_chunks id statement (chunks receipts_per_chunk (r ∷ [])) rows ≡ record {
      applied = if exists_where (owns id (r ∷ [])) rows then 1 else 0;
      rows = statement (r ∷ []) rows;
    }
unfolding for_chunks chunks
for_chunks-one id statement r rows d = ground (arith, count-owns id r rows d)

module _ (self : Consumer) (r : Receipt) (s : State) (d : Distinct delivery_key s.db.deliveries)
    (room : 1 ≤ self.fan.max_batch_size) where
  -- `ack` answers whether the receipt was current.
  pub ack_lem :
      ack self r s
      ≡ ok (
        is_current self r s,
        with_deliveries s (delete_receipts self.id (r ∷ []) s.db.deliveries),
      )
  unfolding ack ensure_batch_size
  ack_lem = rw (for_chunks-one self.id (delete_receipts self.id) r s.db.deliveries d) (ground arith)

  pub extend_visibility_lem :
      (timeout : Duration) (clock : SystemTime) (ms now visible_at : ℕ)
      → duration_ms timeout ≡ ok ms
      → 0 < ms
      → now_ms clock ≡ ok now
      → add_duration now timeout ≡ ok visible_at
      → extend_visibility self r timeout clock s
        ≡ ok (
          is_current self r s,
          with_deliveries s (extend_receipts self.id visible_at (r ∷ []) s.db.deliveries),
        )
  unfolding extend_visibility ensure_batch_size
  extend_visibility_lem timeout clock ms now visible_at e pos f g =
      ground
        (arith, for_chunks-one self.id (extend_receipts self.id visible_at) r s.db.deliveries d)

  pub nack_lem :
      (retry : Retry) (clock : SystemTime) (now visible_at : ℕ)
      → now_ms clock ≡ ok now
      → add_duration now (delay retry) ≡ ok visible_at
      → nack self r retry clock s
        ≡ ok (
          is_current self r s,
          (let s' =
                with_deliveries s (release_receipts self.id visible_at (r ∷ []) s.db.deliveries) in
              if is_current self r s then notified self s' else s'),
        )
  unfolding nack ensure_batch_size
  nack_lem retry clock now visible_at f g =
      ground
        (arith, for_chunks-one self.id (release_receipts self.id visible_at) r s.db.deliveries d)
