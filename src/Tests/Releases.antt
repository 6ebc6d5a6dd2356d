-- ===== src/Tests/Releases.antt =====
-- A batch of releases that names one delivery twice.
use litefan.Prelude.{
  ◌-◌, ◌≡◌, ◌≤◌, Among, [], ◌∷◌, List, All, arith, ap, inl, inr, count_where, chunks, sort_by,
}
use litefan.Error.{ok}
use litefan.Api.{Receipt, immediately}
use litefan.Time.{now_ms, checked_add}
use litefan.Schema.{insert_deliveries, update_consumers}
use litefan.Storage.{owns}
use litefan.Store.{ensure_batch_size}
use litefan.Consumer.Claim.{claim}
use litefan.Consumer.Receipts.{nack_batch}
use litefan.Consumer.Receipts.Releases.{IsIssued, released, nack_batch_lem}
use litefan.Tests.Fixtures.{worker, clock}
use litefan.Tests.Claims.{leased, receipt, clock_reads, no_delay}

abbrev twice : List Receipt
twice = receipt ∷ receipt ∷ []

twice-IsIssued : All (IsIssued twice) leased.db.deliveries
unfolding claim chunks sort_by now_ms checked_add insert_deliveries update_consumers
    ensure_batch_size
twice-IsIssued = ((λ r n e f. named r n), ((λ r n e f. named r n), tt))
  where
    named : (r : Receipt) → Among r twice → r.generation ≤ 1
    named r (inl e) = omega (arith, ap (λ (x : Receipt). x.generation) e)
    named r (inr (inr n)) = elim n [ ]
    named r (inr (inl e)) = omega (arith, ap (λ (x : Receipt). x.generation) e)

nack_batch_lem_example :
    nack_batch worker twice immediately clock leased
    ≡ ok (
      record {
        applied = count_where (owns worker.id twice) leased.db.deliveries;
        stale = 2 - count_where (owns worker.id twice) leased.db.deliveries;
      },
      released worker twice 100 (count_where (owns worker.id twice) leased.db.deliveries) leased,
    )
nack_batch_lem_example =
    nack_batch_lem worker twice immediately clock leased 100 100 (omega arith) clock_reads no_delay
      twice-IsIssued
