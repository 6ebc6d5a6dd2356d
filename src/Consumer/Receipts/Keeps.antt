-- ===== src/Consumer/Receipts/Keeps.antt =====
-- The mutations by receipt keep the invariant of the tables.
use litefan.Prelude.{
  ℕ, ◌≡◌, refl, Bool, List, [], ◌∷◌, select, update_where, not, is_nil, chunks, length, ◌==◌,
}
use litefan.Error.{ok}
use litefan.Error.Ensures.{Ensures-ok, Ensures-err, Ensures-if, Ensures-bind, of_if}
use litefan.Api.{Receipt, BatchResult, Retry, Duration, delay}
use litefan.Time.{SystemTime, now_ms, add_duration, duration_ms}
use litefan.Schema.{Database, DeliveryRow}
use litefan.Schema.WellFormed.{WellFormed, delivery_key}
use litefan.Schema.Work.{IsWork-select, IsWork-update, SameKeys-select, SameKeys-update}
use litefan.Schema.Changes.{IsNextDeliveries, WellFormed-deliveries, IsNextDeliveries-same}
use litefan.Storage.{owns, receipts_per_chunk}
use litefan.Store.{State, ensure_batch_size}
use litefan.Consumer.{Consumer}
use litefan.Consumer.Receipts.{
  for_chunks, delete_receipts, release, release_receipts, prolong, extend_receipts, ack_batch,
  nack_batch, extend_visibility_batch,
}

module _ {db : Database} {rows : List DeliveryRow} where
  pub IsNextDeliveries-select :
      (p : DeliveryRow → Bool) → IsNextDeliveries db rows → IsNextDeliveries db (select p rows)
  IsNextDeliveries-select p n = record {
    work = IsWork-select p n.work;
    keys = SameKeys-select delivery_key db.deliveries rows p n.keys;
  }

  pub IsNextDeliveries-update :
      (p : DeliveryRow → Bool) (f : DeliveryRow → DeliveryRow)
      → ((d : DeliveryRow) → delivery_key (f d) ≡ delivery_key d)
      → IsNextDeliveries db rows
      → IsNextDeliveries db (update_where p f rows)
  IsNextDeliveries-update p f same n = record {
    work = IsWork-update p f same n.work;
    keys = SameKeys-update delivery_key db.deliveries rows p f same n.keys;
  }

for_chunks-keeps :
    (db : Database) (id : ℕ) (statement : List Receipt → List DeliveryRow → List DeliveryRow)
    → ((c : List Receipt) (rows : List DeliveryRow)
        → IsNextDeliveries db rows
        → IsNextDeliveries db (statement c rows))
    → (cs : List (List Receipt)) (rows : List DeliveryRow) → IsNextDeliveries db rows
    → IsNextDeliveries db (for_chunks id statement cs rows).rows
unfolding for_chunks
for_chunks-keeps db id statement keep [] rows n = n
for_chunks-keeps db id statement keep (c ∷ cs) rows n =
    for_chunks-keeps db id statement keep cs (statement c rows) (keep c rows n)

abbrev Post : BatchResult × State → Type 0
Post r = WellFormed r.1.db

module _ (self : Consumer) (receipts : List Receipt) (s : State) (w : WellFormed s.db) where
  after_chunks :
      (statement : List Receipt → List DeliveryRow → List DeliveryRow)
      → ((c : List Receipt) (rows : List DeliveryRow)
          → IsNextDeliveries s.db rows
          → IsNextDeliveries s.db (statement c rows))
      → WellFormed (record s.db {
        deliveries =
            (for_chunks self.id statement
              (chunks receipts_per_chunk receipts)
              s.db.deliveries).rows;
      })
  after_chunks statement keep = WellFormed-deliveries s.db _ w (
      for_chunks-keeps s.db self.id statement keep (chunks receipts_per_chunk receipts)
        s.db.deliveries (IsNextDeliveries-same s.db w))

  -- If the database is well-formed and `ack_batch` succeeds, it leaves a well-formed database.
  pub ack_batch-WellFormed :
      (r : BatchResult × State) → ack_batch self receipts s ≡ ok r → WellFormed r.1.db
  unfolding ack_batch
  ack_batch-WellFormed = Ensures-if Post (is_nil receipts) _ _ (Ensures-ok Post _ w) (
      Ensures-bind Post (ensure_batch_size self.fan (length receipts)) _ λ _ _. Ensures-ok Post _ (
        after_chunks (delete_receipts self.id)
          (λ c rows n. IsNextDeliveries-select (λ d. not (owns self.id c d)) n)))

  -- If the database is well-formed and `nack_batch` succeeds, it leaves a well-formed database.
  pub nack_batch-WellFormed :
      (retry : Retry) (clock : SystemTime)
      → (r : BatchResult × State) → nack_batch self receipts retry clock s ≡ ok r
      → WellFormed r.1.db
  unfolding nack_batch
  nack_batch-WellFormed retry clock = Ensures-if Post (is_nil receipts) _ _ (Ensures-ok Post _ w) (
      Ensures-bind Post (ensure_batch_size self.fan (length receipts)) _ λ _ _.
        Ensures-bind Post (now_ms clock) _ λ now _.
          Ensures-bind Post (add_duration now (delay retry)) _ λ v _.
            let kept =
              after_chunks (release_receipts self.id v)
                (λ c rows n. IsNextDeliveries-update (owns self.id c) (release v) (λ d. refl) n) in
            Ensures-ok Post _ (of_if (λ (t : State). WellFormed t.db) _ _ _ kept kept))

  -- If the database is well-formed and `extend_visibility_batch` succeeds, it leaves a well-formed
  -- database.
  pub extend_visibility_batch-WellFormed :
      (timeout : Duration) (clock : SystemTime)
      → (r : BatchResult × State) → extend_visibility_batch self receipts timeout clock s ≡ ok r
      → WellFormed r.1.db
  unfolding extend_visibility_batch
  extend_visibility_batch-WellFormed timeout clock =
      Ensures-if Post (is_nil receipts) _ _ (Ensures-ok Post _ w) (
        Ensures-bind Post (ensure_batch_size self.fan (length receipts)) _ λ _ _.
          Ensures-bind Post (duration_ms timeout) _ λ ms _.
            Ensures-if Post (ms == 0) _ _ (Ensures-err Post _) (
              Ensures-bind Post (now_ms clock) _ λ now _.
                Ensures-bind Post (add_duration now timeout) _ λ v _. Ensures-ok Post _ (
                  after_chunks (extend_receipts self.id v) (λ c rows n.
                    IsNextDeliveries-update (owns self.id c) (prolong v) (λ d. refl) n))))
