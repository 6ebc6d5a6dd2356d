-- ===== src/Consumer/Receipts/Chunks.antt =====
-- Deleting chunk by chunk is deleting at once.
use litefan.Prelude.{
  exists_where-append, ℕ, ◌+◌, ◌≤◌, ◌≡◌, refl, ap, ◌∙◌, sym, ◌&&◌, ◌||◌, List, [], ◌∷◌, ◌++◌, arith,
  length, ◌==◌, concat, concat-chunks, chunks, count_where,
}
use litefan.Error.{ok}
use litefan.Api.{Receipt}
use litefan.Schema.{DeliveryRow}
use litefan.Storage.{receipts_per_chunk, owns, receipt_predicate}
use litefan.Store.{State, ensure_batch_size}
use litefan.Consumer.{Consumer}
use litefan.Consumer.Receipts.{
  for_chunks, delete_receipts, ack_batch, batch_result, with_deliveries,
}

pub owns-append :
    (id : ℕ) (xs ys : List Receipt) (d : DeliveryRow)
    → owns id (xs ++ ys) d ≡ (owns id xs d || owns id ys d)
unfolding owns receipt_predicate
owns-append id xs ys d = ground (
  arith,
  exists_where-append
      (λ (r : Receipt).
        r.consumer_id == d.consumer_id
        && r.message_id == d.message_id
        && r.generation == d.generation)
      xs ys,
)

-- One DELETE for both predicates removes what two removed, and counts each row once.
delete_both :
    (id : ℕ) (xs ys : List Receipt) (rows : List DeliveryRow)
    → (delete_receipts id (xs ++ ys) rows ≡ delete_receipts id ys (delete_receipts id xs rows))
      × (count_where (owns id (xs ++ ys)) rows
          ≡ count_where (owns id xs) rows + count_where (owns id ys) (delete_receipts id xs rows))
delete_both id xs ys [] = (refl, omega arith)
delete_both id xs ys (d ∷ rows) = ground (arith, owns-append id xs ys d, delete_both id xs ys rows)

pub owns-nil :
    (id : ℕ) (rows : List DeliveryRow)
    → (delete_receipts id [] rows ≡ rows) × (count_where (owns id []) rows ≡ 0)
unfolding owns receipt_predicate
owns-nil id [] = (refl, refl)
owns-nil id (d ∷ rows) = ground (arith, owns-nil id rows)

for_chunks-delete :
    (id : ℕ) (cs : List (List Receipt)) (rows : List DeliveryRow)
    → ((for_chunks id (delete_receipts id) cs rows).rows ≡ delete_receipts id (concat cs) rows)
      × ((for_chunks id (delete_receipts id) cs rows).applied
          ≡ count_where (owns id (concat cs)) rows)
unfolding for_chunks
for_chunks-delete id [] rows = (sym (owns-nil id rows).0, sym (owns-nil id rows).1)
for_chunks-delete id (c ∷ cs) rows =
    let rest = for_chunks-delete id cs (delete_receipts id c rows) in
    let both = delete_both id c (concat cs) rows in
    (rest.0 ∙ sym both.0, omega (arith, rest.1, both.1))

-- The loop over the chunks of a batch, for the statement of `ack_batch` and `archive_batch`.
pub for_chunks-delete_all :
    (id : ℕ) (receipts : List Receipt) (rows : List DeliveryRow)
    → for_chunks id (delete_receipts id) (chunks receipts_per_chunk receipts) rows ≡ record {
      applied = count_where (owns id receipts) rows;
      rows = delete_receipts id receipts rows;
    }
for_chunks-delete_all id receipts rows =
    let whole = concat-chunks receipts_per_chunk receipts (omega arith) in
    let e = for_chunks-delete id (chunks receipts_per_chunk receipts) rows in
    λ i. record {
      applied = (e.1 ∙ ap (λ (rs : List Receipt). count_where (owns id rs) rows) whole) i;
      rows = (e.0 ∙ ap (λ (rs : List Receipt). delete_receipts id rs rows) whole) i;
    }

-- If the batch is within the limit, `ack_batch` succeeds: run chunk by chunk, it removes exactly the
-- rows of the consumer that a receipt of the batch names with the row's current generation, counts
-- each row once, and changes nothing else.
pub ack_batch_lem :
    (self : Consumer) (receipts : List Receipt) (s : State)
    → length receipts ≤ self.fan.max_batch_size
    → ack_batch self receipts s
      ≡ ok (
        batch_result receipts (count_where (owns self.id receipts) s.db.deliveries),
        with_deliveries s (delete_receipts self.id receipts s.db.deliveries),
      )
unfolding ack_batch ensure_batch_size
ack_batch_lem self [] s h =
    rw ((owns-nil self.id s.db.deliveries).0, (owns-nil self.id s.db.deliveries).1)
ack_batch_lem self (r ∷ rs) s h = rw for_chunks-delete_all (ground arith)
