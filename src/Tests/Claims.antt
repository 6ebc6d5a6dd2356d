-- ===== src/Tests/Claims.antt =====
-- The theorems on claims and receipts at the store of the fixtures.
use litefan.Prelude.{◌≡◌, refl, true, false, [], ◌∷◌, arith, none, count_where, chunks, sort_by}
use litefan.Error.{ok, err, clock_before_unix_epoch}
use litefan.Api.{Receipt, immediately, delay, from_secs}
use litefan.Time.{now_ms, duration_ms, add_duration, checked_add, before_unix_epoch}
use litefan.Schema.{insert_deliveries, update_consumers}
use litefan.Schema.WellFormed.{WellFormed}
use litefan.Store.{State, ensure_batch_size}
use litefan.Storage.{owns}
use litefan.Consumer.Receipts.{
  ack, nack, extend_visibility, ack_batch, nack_batch, extend_visibility_batch, batch_result,
  with_deliveries, delete_receipts, release_receipts, extend_receipts, notified,
}
use litefan.Consumer.Receipts.Chunks.{ack_batch_lem}
use litefan.Consumer.Receipts.Stale.{
  is_current-ack, is_current-nack, is_current-extend_visibility, stale_is_noop,
}
use litefan.Consumer.Claim.Transaction.{IsClaimed, claim_transaction_total}
use litefan.Consumer.Claim.Outcome.{ClaimError, claim_errors}
use litefan.Consumer.Receipts.Fencing.{is_current}
use litefan.Consumer.Claim.{Claim, Claimed, alone, claim, claim_transaction}
use litefan.Consumer.Claim.Answer.{IsKept, claim-WellFormed}
use litefan.Consumer.Claim.Receipts.{IsHandedOut, claim-IsHandedOut}
use litefan.Tests.Fixtures.{
  start, start-WellFormed, worker, worker_row, pool-ReturnsRows, clock, first_message,
  second_message,
}

alone-IsKept : IsKept alone
alone-IsKept = record { before = λ db w. w; after = λ db w. w }

abbrev pub leased : State
leased = (claim worker 10 30_000 clock alone start).1

pub leased-WellFormed : WellFormed leased.db
leased-WellFormed =
    claim-WellFormed worker 10 pool-ReturnsRows (omega arith) 30_000 clock alone start alone-IsKept
      start-WellFormed

abbrev pub receipt : Receipt
receipt = record { consumer_id = 1; message_id = 1; generation = 1 }

abbrev pub answer : Claim
answer = record {
  deliveries =
      record { message = first_message; delivery_count = 1; receipt = receipt }
      ∷ record {
        message = second_message;
        delivery_count = 1;
        receipt = record { consumer_id = 1; message_id = 2; generation = 1 };
      }
      ∷ [];
  next_visible_at = none;
  draining = false;
}

claim_run : claim worker 10 30_000 clock alone start ≡ (ok answer, leased)
unfolding claim chunks sort_by now_ms checked_add insert_deliveries update_consumers
claim_run = refl

claim-IsHandedOut_example : IsHandedOut worker 10 answer leased
claim-IsHandedOut_example =
    claim-IsHandedOut worker 10 30_000 clock start leased answer pool-ReturnsRows (omega arith)
      start-WellFormed claim_run

clock_run : (claim worker 10 30_000 before_unix_epoch alone start).0 ≡ err clock_before_unix_epoch
unfolding claim now_ms
clock_run = refl

claim_errors_example : ClaimError worker clock_before_unix_epoch
claim_errors_example =
    claim_errors worker 10 pool-ReturnsRows (omega arith) 30_000 before_unix_epoch alone start
      alone-IsKept start-WellFormed clock_before_unix_epoch clock_run

claim-WellFormed_example : WellFormed leased.db
claim-WellFormed_example =
    claim-WellFormed worker 10 pool-ReturnsRows (omega arith) 30_000 clock alone start alone-IsKept
      start-WellFormed

claim_transaction_total_example :
    (done : Claimed) × (claim_transaction worker 10 30_100 100 start.db ≡ ok done)
    × IsClaimed worker 10 done
claim_transaction_total_example =
    claim_transaction_total worker 10 30_100 100 start.db worker_row pool-ReturnsRows
      start-WellFormed refl (omega arith)

ack_batch_lem_example :
    ack_batch worker (receipt ∷ receipt ∷ []) leased
    ≡ ok (
      batch_result
          (receipt ∷ receipt ∷ [])
          (count_where (owns worker.id (receipt ∷ receipt ∷ [])) leased.db.deliveries),
      with_deliveries leased
          (delete_receipts worker.id (receipt ∷ receipt ∷ []) leased.db.deliveries),
    )
ack_batch_lem_example = ack_batch_lem worker (receipt ∷ receipt ∷ []) leased (omega arith)

ack_run :
    ack worker receipt leased
    ≡ ok (
      true,
      with_deliveries leased (delete_receipts worker.id (receipt ∷ []) leased.db.deliveries),
    )
unfolding ack owns chunks claim sort_by now_ms checked_add insert_deliveries update_consumers
    ensure_batch_size
ack_run = refl

is_current-ack_example :
    is_current worker receipt
      (with_deliveries leased (delete_receipts worker.id (receipt ∷ []) leased.db.deliveries))
    ≡ false
is_current-ack_example =
    is_current-ack worker receipt leased leased-WellFormed.deliveries.distinct (omega arith) true
      (with_deliveries leased (delete_receipts worker.id (receipt ∷ []) leased.db.deliveries))
      ack_run

abbrev nacked : State
nacked =
    notified worker
      (with_deliveries leased (release_receipts worker.id 100 (receipt ∷ []) leased.db.deliveries))

nack_run : nack worker receipt immediately clock leased ≡ ok (true, nacked)
unfolding nack owns chunks claim sort_by now_ms checked_add insert_deliveries update_consumers
    ensure_batch_size add_duration
nack_run = refl

pub clock_reads : now_ms clock ≡ ok 100
unfolding now_ms
clock_reads = refl

pub no_delay : add_duration 100 (delay immediately) ≡ ok 100
unfolding add_duration
no_delay = refl

is_current-nack_example : is_current worker receipt nacked ≡ false
is_current-nack_example =
    is_current-nack worker receipt leased leased-WellFormed.deliveries.distinct (omega arith)
      immediately clock 100 100 true nacked clock_reads no_delay nack_run

one_second : duration_ms (from_secs 1) ≡ ok 1_000
unfolding duration_ms
one_second = refl

in_one_second : add_duration 100 (from_secs 1) ≡ ok 1_100
unfolding add_duration
in_one_second = refl

abbrev extended : State
extended =
    with_deliveries leased (extend_receipts worker.id 1_100 (receipt ∷ []) leased.db.deliveries)

extend_run : extend_visibility worker receipt (from_secs 1) clock leased ≡ ok (true, extended)
unfolding extend_visibility owns chunks claim sort_by now_ms checked_add insert_deliveries
    update_consumers ensure_batch_size add_duration
extend_run = refl

is_current-extend_visibility_example :
    is_current worker receipt extended ≡ is_current worker receipt leased
is_current-extend_visibility_example =
    is_current-extend_visibility worker receipt leased leased-WellFormed.deliveries.distinct
      (omega arith) (from_secs 1) clock 1_000 100 1_100 true extended one_second (omega arith)
      clock_reads in_one_second extend_run

abbrev stale_receipt : Receipt
stale_receipt = record { consumer_id = 1; message_id = 1; generation = 0 }

is_stale : is_current worker stale_receipt leased ≡ false
unfolding owns claim chunks sort_by now_ms checked_add insert_deliveries update_consumers
is_stale = refl

stale_is_noop_example :
    (ack worker stale_receipt leased ≡ ok (false, leased))
    × (nack worker stale_receipt immediately clock leased ≡ ok (false, leased))
    × (extend_visibility worker stale_receipt (from_secs 1) clock leased ≡ ok (false, leased))
stale_is_noop_example =
    stale_is_noop worker stale_receipt leased leased-WellFormed.deliveries.distinct (omega arith)
      immediately (from_secs 1) clock 1_000 100 100 1_100 is_stale clock_reads no_delay one_second
      (omega arith) in_one_second

pub ack_batch_run :
    ack_batch worker (receipt ∷ receipt ∷ []) leased
    ≡ ok (
      record { applied = 1; stale = 1 },
      with_deliveries leased (delete_receipts worker.id (receipt ∷ []) leased.db.deliveries),
    )
unfolding ack_batch owns chunks claim sort_by now_ms checked_add insert_deliveries update_consumers
    ensure_batch_size
ack_batch_run = refl

nack_batch_run :
    nack_batch worker (receipt ∷ []) immediately clock leased
    ≡ ok (record { applied = 1; stale = 0 }, nacked)
unfolding nack_batch owns chunks claim sort_by now_ms checked_add insert_deliveries update_consumers
    ensure_batch_size add_duration
nack_batch_run = refl

extend_batch_run :
    extend_visibility_batch worker (receipt ∷ []) (from_secs 1) clock leased
    ≡ ok (record { applied = 1; stale = 0 }, extended)
unfolding extend_visibility_batch owns chunks claim sort_by now_ms checked_add insert_deliveries
    update_consumers ensure_batch_size add_duration
extend_batch_run = refl
