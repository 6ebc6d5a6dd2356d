-- ===== src/Tests/Polls.antt =====
-- Polling with the consumer of the fixtures, and what its snapshot promises.
use litefan.Prelude.{
  ℕ, ◌≡◌, ◌+◌, refl, inl, inr, some, none, List, [], ◌∷◌, All, arith, min, sort_by, chunks, length,
}
use litefan.Error.{Result, ok}
use litefan.Api.{Delivery, Poll, ConsumerSnapshot, all, active, from_millis, from_secs}
use litefan.Time.{now_ms, checked_add, duration_ms}
use litefan.Schema.{insert_deliveries, update_consumers}
use litefan.Schema.WellFormed.{WellFormed}
use litefan.Storage.Snapshots.{consumer_snapshot}
use litefan.Store.{State, ensure_batch_size}
use litefan.Consumer.Claim.{Claim, alone, claim}
use litefan.Consumer.Claim.Ready.{claim-ready}
use litefan.Consumer.Claim.Loss.{Keeps, claim-outstanding}
use litefan.Consumer.Claim.Receipts.{IsHandedOut}
use litefan.Consumer.Poll.{InstantAdd, Round, poll}
use litefan.Consumer.Poll.Returns.{poll-returns}
use litefan.Consumer.Poll.Keeps.{KeepsRound, IsAlone, handed_out, poll-WellFormed, poll-IsHandedOut}
use litefan.Tests.Fixtures.{
  start, start-WellFormed, second_message, worker, worker_row, pool-ReturnsRows, clock,
}
use litefan.Tests.Claims.{clock_reads, leased, answer}

abbrev options : Poll
options = record { max_messages = 10; visibility_timeout = from_secs 30; wait = from_millis 500 }

-- A monotonic clock that represents every sum.
abbrev add : InstantAdd
add = λ instant d. some (instant + d)

abbrev round_at : ℕ → Round
round_at instant = record {
  clock = clock;
  others = alone;
  instant = instant;
  wait_clock = clock;
  meanwhile = λ s. s;
}

-- Turns at the start, before the deadline and after it.
abbrev rounds : List Round
rounds = round_at 0 ∷ round_at (from_millis 250) ∷ round_at (from_millis 501) ∷ []

abbrev one_round : List Round
one_round = round_at 0 ∷ []

-- Another handle has claimed everything: this poll waits until its deadline.
poll-returns_example :
    (reply : Result (List Delivery)) × ((poll worker add options 0 rounds leased).0 ≡ some reply)
poll-returns_example = poll-returns worker add options 0 (from_millis 500) rounds leased refl refl

rounds-KeepsRound : All KeepsRound rounds
rounds-KeepsRound = (kept, (kept, (kept, tt)))
  where
    kept : {instant : ℕ} → KeepsRound (round_at instant)
    kept = record {
      others = record { before = λ db w. w; after = λ db w. w };
      meanwhile = λ s w. w;
    }

poll-WellFormed_example : WellFormed (poll worker add options 0 rounds start).1.db
poll-WellFormed_example =
    poll-WellFormed worker add options 0 pool-ReturnsRows (omega arith) rounds start
      rounds-KeepsRound start-WellFormed

poll_run : poll worker add options 0 one_round start ≡ (some (ok answer.deliveries), leased)
unfolding poll claim chunks sort_by now_ms checked_add insert_deliveries update_consumers
    duration_ms ensure_batch_size
poll_run = refl

one_round-IsAlone : All IsAlone one_round
one_round-IsAlone = (record { others = refl; meanwhile = λ s w. w }, tt)

poll-IsHandedOut_example : IsHandedOut worker 10 (handed_out answer.deliveries) leased
poll-IsHandedOut_example =
    poll-IsHandedOut worker add options 0 pool-ReturnsRows (omega arith) one_round start leased
      answer.deliveries one_round-IsAlone start-WellFormed poll_run

lease_end : checked_add 100 30_000 ≡ ok 30_100
unfolding checked_add
lease_end = refl

abbrev view : ConsumerSnapshot
view = record {
  name = "worker";
  filter = all;
  state = active;
  created_at_ms = 40;
  draining_at_ms = none;
  outstanding = 2;
  ready = 2;
  next_ready_at_ms = none;
  oldest_outstanding_at_ms = some 50;
  archived = 0;
}

view_run : consumer_snapshot worker clock start ≡ ok view
unfolding consumer_snapshot now_ms
view_run = refl

claim-ready_example :
    (cl : Claim) × (s' : State) × (claim worker 1 30_000 clock alone start ≡ (ok cl, s'))
    × (length cl.deliveries ≡ min 1 2)
claim-ready_example =
    claim-ready worker 1 30_000 clock 100 30_100 start worker_row view pool-ReturnsRows
      (omega arith) start-WellFormed clock_reads lease_end refl view_run

-- One message is claimed: the other is outstanding afterwards.
claim-outstanding_example :
    (cl : Claim) × (s' : State) × (claim worker 1 30_000 clock alone start ≡ (ok cl, s'))
    × Keeps worker start.db worker_row second_message s'.db
claim-outstanding_example =
    claim-outstanding worker 1 30_000 clock 100 30_100 start worker_row second_message
      pool-ReturnsRows (omega arith) start-WellFormed clock_reads lease_end refl (inr (inl refl))
      refl
