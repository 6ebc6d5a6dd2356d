-- ===== src/Tests/Deleting.antt =====
-- Deleting the consumer of the fixtures, with its deliveries.
use litefan.Prelude.{◌≡◌, refl, sort_by, chunks, text_eq}
use litefan.Error.{ok, err}
use litefan.Api.{discard_all}
use litefan.Time.{now_ms, checked_add}
use litefan.Schema.{insert_deliveries, update_consumers, delete_consumer_row}
use litefan.Store.{State}
use litefan.Store.Retention.{delete_consumer}
use litefan.Store.Retention.Erasure.{IsDeleted, delete_consumer-IsDeleted}
use litefan.Consumer.Claim.{claim}
use litefan.Tests.Claims.{leased, leased-WellFormed}

abbrev forgotten : State
forgotten = elim (delete_consumer "worker" discard_all leased) [ ok r ↦ r.1 | err e ↦ leased ]

delete_run :
    delete_consumer "worker" discard_all leased
    ≡ ok (record { discarded_deliveries = 2; discarded_archives = 0 }, forgotten)
unfolding delete_consumer delete_consumer_row text_eq claim chunks sort_by now_ms checked_add
    insert_deliveries update_consumers
delete_run = refl

delete_consumer-IsDeleted_example : IsDeleted "worker" leased.db forgotten.db
delete_consumer-IsDeleted_example =
    delete_consumer-IsDeleted "worker" discard_all leased
      (record { discarded_deliveries = 2; discarded_archives = 0 }) forgotten leased-WellFormed
      delete_run
