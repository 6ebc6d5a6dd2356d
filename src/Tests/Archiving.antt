-- ===== src/Tests/Archiving.antt =====
-- The theorems on archives at the store of the fixtures.
use litefan.Prelude.{
  ◌-◌, subst, chunks, sort_by, refl, none, ◌≡◌, some, [], ◌∷◌, arith, count_where,
}
use litefan.Api.{immediately}
use litefan.Time.{now_ms, checked_add}
use litefan.Schema.{insert_deliveries, insert_archives, update_consumers}
use litefan.Schema.WellFormed.{WellFormed}
use litefan.Store.{ensure_batch_size, State}
use litefan.Consumer.Claim.{claim}
use litefan.Consumer.Archives.{picks, redrive_batch, archive_batch_with_detail}
use litefan.Consumer.Archives.Redriven.{IsRedriven}
use litefan.Consumer.Archives.Redriving.{redrive_batch-IsRedriven}
use litefan.Error.{ok, err}
use litefan.Storage.{owns}
use litefan.Consumer.Archives.Outcome.{IsArchived, archive_batch-IsArchived}
use litefan.Tests.Fixtures.{worker, pool-ReturnsRows, clock}
use litefan.Tests.Claims.{leased, leased-WellFormed, receipt, clock_reads, no_delay}

archive_batch-IsArchived_example :
    (s' : State) × (archive_batch_with_detail worker
        (receipt ∷ receipt ∷ [])
        (some "poison")
        clock
        leased
      ≡ ok (
        record {
          applied = count_where (owns worker.id (receipt ∷ receipt ∷ [])) leased.db.deliveries;
          stale = 2 - count_where (owns worker.id (receipt ∷ receipt ∷ [])) leased.db.deliveries;
        },
        s',
      ))
    × IsArchived worker (receipt ∷ receipt ∷ []) (some "poison") 100 leased.db s'.db
archive_batch-IsArchived_example =
    archive_batch-IsArchived worker (some "poison") clock 100 leased pool-ReturnsRows
      leased-WellFormed (receipt ∷ receipt ∷ []) (omega arith) clock_reads

-- The state after the archive of the first message.
abbrev archived : State
archived = elim (archive_batch_with_detail worker (receipt ∷ []) none clock leased) [
  | ok r ↦ r.1
  | err e ↦ leased
]

archive_run :
    archive_batch_with_detail worker (receipt ∷ []) none clock leased
    ≡ ok (record { applied = 1; stale = 0 }, archived)
unfolding archive_batch_with_detail owns chunks claim sort_by now_ms checked_add insert_deliveries
    insert_archives update_consumers ensure_batch_size
archive_run = refl

archived-WellFormed : WellFormed archived.db
archived-WellFormed =
    let done =
      archive_batch-IsArchived worker none clock 100 leased pool-ReturnsRows leased-WellFormed
        (receipt ∷ []) (omega arith) clock_reads in
    let same : done.0 ≡ archived = cc (done.1, archive_run) in
    subst (λ (s : State). WellFormed s.db) same done.2.valid

redrive_batch-IsRedriven_example :
    (s' : State) × (redrive_batch worker (1 ∷ 7 ∷ []) immediately clock archived
      ≡ ok (
        record {
          applied = count_where (picks worker.id (1 ∷ 7 ∷ [])) archived.db.archives;
          stale = 2 - count_where (picks worker.id (1 ∷ 7 ∷ [])) archived.db.archives;
        },
        s',
      ))
    × IsRedriven worker (1 ∷ 7 ∷ []) 100 archived.db s'.db
redrive_batch-IsRedriven_example =
    redrive_batch-IsRedriven worker immediately clock 100 100 archived pool-ReturnsRows
      archived-WellFormed (1 ∷ 7 ∷ []) (omega arith) clock_reads no_delay
