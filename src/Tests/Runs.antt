-- ===== src/Tests/Runs.antt =====
-- A run of the whole store: a consumer is opened, a message published and claimed.
use litefan.Prelude.{◌≡◌, refl, [], ◌∷◌, arith, sort_by, chunks, text_eq}
use litefan.Error.{ok, err}
use litefan.Api.{new_publish, published, all}
use litefan.Time.{now_ms}
use litefan.Schema.WellFormed.{WellFormed}
use litefan.Signals.{notify_publishes, publishes_for, consumer_signal_for}
use litefan.Storage.{insert_message_rows}
use litefan.Store.{State, ensure_batch_size}
use litefan.Store.Publish.{publish_batch}
use litefan.Consumer.Lifecycle.{open_consumer}
use litefan.Consumer.Claim.{alone, claim}
use litefan.System.{Reach, Step, new_store}
use litefan.System.Safety.{reach-WellFormed}
use litefan.Tests.Fixtures.{fan, worker, pool-ReturnsRows, clock}

abbrev with_consumer : State
with_consumer = elim (open_consumer fan "worker" all clock new_store) [
  | ok r ↦ r.1
  | err e ↦ new_store
]

abbrev with_message : State
with_message = elim (publish_batch fan (new_publish (104 ∷ []) ∷ []) clock with_consumer) [
  | ok r ↦ r.1
  | err e ↦ new_store
]

open_run : open_consumer fan "worker" all clock new_store ≡ ok (worker, with_consumer)
unfolding open_consumer text_eq now_ms publishes_for consumer_signal_for
open_run = refl

publish_run :
    publish_batch fan (new_publish (104 ∷ []) ∷ []) clock with_consumer
    ≡ ok (published 1 ∷ [], with_message)
unfolding publish_batch open_consumer text_eq now_ms publishes_for consumer_signal_for chunks
    sort_by insert_message_rows ensure_batch_size notify_publishes
publish_run = refl

reached : Reach fan (claim worker 10 30_000 clock alone with_message).1
reached =
    Reach.later
      (Reach.later (Reach.later Reach.start (Step.opens "worker" all clock open_run))
        (Step.publishes (new_publish (104 ∷ []) ∷ []) clock publish_run))
      (Step.claims worker 10 30_000 clock refl (omega arith))

reach-WellFormed_example : WellFormed (claim worker 10 30_000 clock alone with_message).1.db
reach-WellFormed_example = reach-WellFormed fan pool-ReturnsRows reached
