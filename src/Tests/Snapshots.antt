-- ===== src/Tests/Snapshots.antt =====
-- Snapshots of the store of the fixtures, and the deletion of its consumer once it has drained.
use litefan.Prelude.{text_eq, ◌≡◌, refl, true, none, some, List, [], ◌∷◌, sort_by, chunks}
use litefan.Error.{ok, err, consumer_not_draining}
use litefan.Api.{Receipt, ConsumerSnapshot, StoreSnapshot, all, active, draining, drained_only}
use litefan.Time.{now_ms, checked_add}
use litefan.Schema.{ConsumerRow, find_consumer, update_consumers, insert_deliveries}
use litefan.Schema.WellFormed.{WellFormed}
use litefan.Storage.{owns}
use litefan.Storage.Snapshots.{consumer_snapshot, store_snapshot}
use litefan.Storage.Counts.{IsSnapshot, consumer_snapshot-IsSnapshot, consumer_snapshot-deleted}
use litefan.Storage.Totals.{IsTotal, store_snapshot-totals}
use litefan.Store.{State, ensure_batch_size}
use litefan.Store.Retention.{delete_consumer}
use litefan.Store.Retention.Refusals.{Refused, delete_consumer-Refused}
use litefan.Store.Retention.Drained.{delete_consumer-drained}
use litefan.Consumer.{Consumer, deleted_error}
use litefan.Consumer.Claim.{claim}
use litefan.Consumer.Lifecycle.{begin_draining}
use litefan.Consumer.Lifecycle.Draining.{begin_draining-WellFormed}
use litefan.Consumer.Receipts.{ack_batch, with_deliveries}
use litefan.Consumer.Receipts.Keeps.{ack_batch-WellFormed}
use litefan.Tests.Fixtures.{start, start-WellFormed, worker, worker_row, clock}
use litefan.Tests.Claims.{leased, leased-WellFormed, receipt, clock_reads}

consumer_snapshot-IsSnapshot_example :
    (snap : ConsumerSnapshot) × (consumer_snapshot worker clock start ≡ ok snap)
    × IsSnapshot start.db 100 worker_row snap
consumer_snapshot-IsSnapshot_example =
    consumer_snapshot-IsSnapshot worker clock 100 start worker_row start-WellFormed clock_reads refl

abbrev stranger : Consumer
stranger = record worker { id = 9; name = "stranger" }

consumer_snapshot-deleted_example :
    consumer_snapshot stranger clock start ≡ err (deleted_error stranger)
consumer_snapshot-deleted_example =
    consumer_snapshot-deleted stranger clock 100 start clock_reads refl

abbrev store_view : StoreSnapshot
store_view = record {
  retained_messages = 2;
  idempotency_keys = 0;
  outstanding_deliveries = 2;
  archived_deliveries = 0;
  consumers =
      record {
        name = "worker";
        filter = all;
        state = active;
        created_at_ms = 40;
        draining_at_ms = none;
        outstanding = 2;
        ready = 2;
        next_ready_at_ms = none;
        oldest_outstanding_at_ms = some 50;
        archived = 0;
      }
      ∷ [];
}

store_snapshot_run : store_snapshot clock start ≡ ok store_view
unfolding store_snapshot now_ms
store_snapshot_run = refl

store_snapshot-totals_example : IsTotal start.db store_view
store_snapshot-totals_example =
    store_snapshot-totals clock start store_view start-WellFormed store_snapshot_run

abbrev acked : State
acked = with_deliveries leased []

abbrev both : List Receipt
both = receipt ∷ record { consumer_id = 1; message_id = 2; generation = 1 } ∷ []

ack_run : ack_batch worker both leased ≡ ok (record { applied = 2; stale = 0 }, acked)
unfolding ack_batch owns chunks claim sort_by now_ms checked_add insert_deliveries update_consumers
    ensure_batch_size
ack_run = refl

acked-WellFormed : WellFormed acked.db
acked-WellFormed =
    ack_batch-WellFormed worker both leased leased-WellFormed
      (record { applied = 2; stale = 0 }, acked) ack_run

abbrev finished_row : ConsumerRow
finished_row = record worker_row { draining_at = some 100; scan_cursor = 2; drain_cursor = some 2 }

abbrev finished : State
finished = elim (begin_draining worker clock (λ db. db) acked) [ ok r ↦ r.1 | err e ↦ acked ]

finish_run : begin_draining worker clock (λ db. db) acked ≡ ok (true, finished)
unfolding begin_draining update_consumers now_ms claim chunks sort_by checked_add insert_deliveries
finish_run = refl

finished-WellFormed : WellFormed finished.db
finished-WellFormed =
    begin_draining-WellFormed worker clock (λ db. db) acked (λ db w. w) acked-WellFormed
      (true, finished) finish_run

abbrev finished_view : ConsumerSnapshot
finished_view = record {
  name = "worker";
  filter = all;
  state = draining;
  created_at_ms = 40;
  draining_at_ms = some 100;
  outstanding = 0;
  ready = 0;
  next_ready_at_ms = none;
  oldest_outstanding_at_ms = none;
  archived = 0;
}

finished_run :
    (find_consumer finished.db 1 ≡ some finished_row)
    × (consumer_snapshot worker clock finished ≡ ok finished_view)
unfolding consumer_snapshot begin_draining update_consumers now_ms claim chunks sort_by checked_add
    insert_deliveries
finished_run = (refl, refl)

delete_consumer-drained_example :
    (s' : State) × (delete_consumer "worker" drained_only finished
      ≡ ok (record { discarded_deliveries = 0; discarded_archives = 0 }, s'))
    × (s'.db.deliveries ≡ finished.db.deliveries)
    × (s'.db.archives ≡ finished.db.archives)
delete_consumer-drained_example =
    delete_consumer-drained worker clock 100 finished finished_row finished_view finished-WellFormed
      clock_reads finished_run.0 finished_run.1 refl refl

refusal_run : delete_consumer "worker" drained_only start ≡ err (consumer_not_draining "worker")
unfolding delete_consumer text_eq
refusal_run = refl

delete_consumer-Refused_example :
    Refused "worker" start.db drained_only (consumer_not_draining "worker")
delete_consumer-Refused_example =
    delete_consumer-Refused "worker" drained_only start (consumer_not_draining "worker") refusal_run
