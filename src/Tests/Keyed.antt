-- ===== src/Tests/Keyed.antt =====
-- Publishing with idempotency keys to the store of the fixtures.
use litefan.Prelude.{
  ◌≡◌, refl, false, leb, exists_where, List, [], ◌∷◌, map, arith, bytes_eq, chunks, sort_by,
}
use litefan.Error.{ok, err}
use litefan.Api.{Publish, PublishOutcome, new_publish, with_idempotency_key, published, duplicate}
use litefan.Time.{SystemTime, since_unix_epoch, now_ms, checked_add}
use litefan.Api.{from_millis}
use litefan.Schema.{IdempotencyRow}
use litefan.Signals.{notify_publishes}
use litefan.Storage.{insert_message_rows, purge_expired_idempotency}
use litefan.Store.{State, ensure_batch_size}
use litefan.Store.Publish.{publish_batch}
use litefan.Store.Publish.Transaction.{IsPublished}
use litefan.Store.Publish.Keyed.{publish_batch_keyed}
use litefan.Store.Publish.Again.{as_duplicate, publish_batch_again}
use litefan.Tests.Fixtures.{fan, start, start-WellFormed, pool-ReturnsRows, clock}
use litefan.Tests.Claims.{clock_reads}

abbrev order : Publish
order = with_idempotency_key (new_publish (111 ∷ [])) (7 ∷ [])

abbrev invoice : Publish
invoice = with_idempotency_key (new_publish (105 ∷ [])) (8 ∷ [])

-- The first message is sent twice in the batch.
abbrev batch : List Publish
batch = order ∷ invoice ∷ order ∷ []

window : checked_add 100 fan.idempotency_window_ms ≡ ok 86_400_100
unfolding checked_add
window = refl

publish_batch_keyed_example :
    (os : List PublishOutcome) × (s' : State) × (publish_batch fan batch clock start ≡ ok (os, s'))
    × IsPublished start.db 100 batch os s'.db
publish_batch_keyed_example =
    publish_batch_keyed fan order (invoice ∷ order ∷ []) clock 100 86_400_100 start pool-ReturnsRows
      start-WellFormed clock_reads window (omega arith) refl

abbrev sent : State
sent = elim (publish_batch fan batch clock start) [ ok r ↦ r.1 | err e ↦ start ]

abbrev answers : List PublishOutcome
answers = published 3 ∷ published 4 ∷ duplicate 3 ∷ []

sent_run : publish_batch fan batch clock start ≡ ok (answers, sent)
unfolding publish_batch now_ms checked_add chunks sort_by bytes_eq insert_message_rows
    purge_expired_idempotency ensure_batch_size notify_publishes
sent_run = refl

abbrev later : SystemTime
later = since_unix_epoch (from_millis 200)

later_reads : now_ms later ≡ ok 200
unfolding now_ms
later_reads = refl

later_window : checked_add 200 fan.idempotency_window_ms ≡ ok 86_400_200
unfolding checked_add
later_window = refl

unexpired : exists_where (λ (r : IdempotencyRow). leb r.expires_at 200) sent.db.idempotency ≡ false
unfolding publish_batch now_ms checked_add chunks sort_by bytes_eq insert_message_rows
    purge_expired_idempotency ensure_batch_size notify_publishes
unexpired = refl

publish_batch_again_example :
    (s'' : State) × (publish_batch fan batch later sent ≡ ok (map as_duplicate answers, s''))
    × (s''.db.messages ≡ sent.db.messages)
publish_batch_again_example =
    publish_batch_again fan order (invoice ∷ order ∷ []) clock later 100 86_400_100 200 86_400_200
      start sent answers pool-ReturnsRows start-WellFormed clock_reads window later_reads
      later_window (omega arith) refl sent_run unexpired
