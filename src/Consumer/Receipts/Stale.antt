-- ===== src/Consumer/Receipts/Stale.antt =====
-- What becomes of a receipt: used up by `ack` and `nack`, kept by `extend_visibility`, and without
-- effect once it is stale.
use litefan.Prelude.{
  ℕ, ◌≤◌, ◌<◌, ◌≡◌, Bool, true, false, [], ◌∷◌, arith, Distinct, exists-delete_where,
  exists-update_where, exists-update_same, delete_where-none, update_where-none,
}
use litefan.Error.{ok}
use litefan.Api.{Receipt, Retry, Duration, delay}
use litefan.Time.{SystemTime, now_ms, add_duration, duration_ms}
use litefan.Schema.{DeliveryRow}
use litefan.Schema.WellFormed.{delivery_key}
use litefan.Storage.{owns, receipt_predicate}
use litefan.Store.{State}
use litefan.Consumer.{Consumer}
use litefan.Consumer.Receipts.{ack, nack, extend_visibility, release, prolong}
use litefan.Consumer.Receipts.Fencing.{is_current, ack_lem, nack_lem, extend_visibility_lem}

release-owns :
    (id v : ℕ) (r : Receipt) (d : DeliveryRow)
    → owns id (r ∷ []) d ≡ true
    → owns id (r ∷ []) (release v d) ≡ false
unfolding owns receipt_predicate
release-owns id v r d h = ground arith

prolong-owns :
    (id v : ℕ) (r : Receipt) (d : DeliveryRow) → owns id (r ∷ []) (prolong v d) ≡ owns id (r ∷ []) d
unfolding owns receipt_predicate
prolong-owns id v r d = ground arith

module _ (self : Consumer) (r : Receipt) (s : State) (d : Distinct delivery_key s.db.deliveries)
    (room : 1 ≤ self.fan.max_batch_size) where
  -- If the database has at most one delivery for a copy and the batch limit is not zero, a receipt is
  -- stale once `ack` has returned true or false.
  pub is_current-ack :
      (b : Bool) (s' : State) → ack self r s ≡ ok (b, s') → is_current self r s' ≡ false
  is_current-ack b s' h =
      ground (
        arith,
        ack_lem self r s d room,
        exists-delete_where (owns self.id (r ∷ [])) s.db.deliveries,
      )

  -- If the database has at most one delivery for a copy, the batch limit is not zero, and the clock
  -- and the retry are in range, a receipt is stale once `nack` has returned true or false.
  pub is_current-nack :
      (retry : Retry) (clock : SystemTime) (now visible_at : ℕ) (b : Bool) (s' : State)
      → now_ms clock ≡ ok now
      → add_duration now (delay retry) ≡ ok visible_at
      → nack self r retry clock s ≡ ok (b, s')
      → is_current self r s' ≡ false
  is_current-nack retry clock now visible_at b s' f g h = ground (
    arith,
    nack_lem self r s d room retry clock now visible_at,
    exists-update_where (owns self.id (r ∷ [])) (release visible_at) s.db.deliveries
        (release-owns self.id visible_at r),
  )

  -- If the database has at most one delivery for a copy, the batch limit is not zero, and the clock
  -- and a timeout of at least a millisecond are in range, `extend_visibility` leaves its receipt as
  -- current or as stale as it was.
  pub is_current-extend_visibility :
      (timeout : Duration) (clock : SystemTime) (ms now visible_at : ℕ) (b : Bool) (s' : State)
      → duration_ms timeout ≡ ok ms
      → 0 < ms
      → now_ms clock ≡ ok now
      → add_duration now timeout ≡ ok visible_at
      → extend_visibility self r timeout clock s ≡ ok (b, s')
      → is_current self r s' ≡ is_current self r s
  is_current-extend_visibility timeout clock ms now visible_at b s' e pos f g h = ground (
    arith,
    extend_visibility_lem self r s d room timeout clock ms now visible_at,
    exists-update_same (owns self.id (r ∷ [])) (prolong visible_at) s.db.deliveries
        (prolong-owns self.id visible_at r),
  )

  -- If the database has at most one delivery for a copy, the batch limit is not zero, and the clock,
  -- the retry and a timeout of at least a millisecond are in range, a receipt that is stale or another
  -- consumer's is answered false by `ack`, `nack` and `extend_visibility`, and no row and no signal
  -- changes.
  pub stale_is_noop :
      (retry : Retry) (timeout : Duration) (clock : SystemTime) (ms now v w : ℕ)
      → is_current self r s ≡ false
      → now_ms clock ≡ ok now
      → add_duration now (delay retry) ≡ ok v
      → duration_ms timeout ≡ ok ms
      → 0 < ms
      → add_duration now timeout ≡ ok w
      → (ack self r s ≡ ok (false, s))
        × (nack self r retry clock s ≡ ok (false, s))
        × (extend_visibility self r timeout clock s ≡ ok (false, s))
  stale_is_noop retry timeout clock ms now v w stale f g e pos k =
      let no_delete = delete_where-none (owns self.id (r ∷ [])) s.db.deliveries stale in
      let no_release =
        update_where-none (owns self.id (r ∷ [])) (release v) s.db.deliveries stale in
      let no_prolong =
        update_where-none (owns self.id (r ∷ [])) (prolong w) s.db.deliveries stale in
      (
        rw (ack_lem self r s d room, stale, no_delete),
        rw (nack_lem self r s d room retry clock now v f g, stale, no_release),
        rw (
          extend_visibility_lem self r s d room timeout clock ms now w e pos f k,
          stale,
          no_prolong,
        ),
      )
