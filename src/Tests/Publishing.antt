-- ===== src/Tests/Publishing.antt =====
-- Publishing to the store of the fixtures.
use litefan.Prelude.{◌+◌, ◌≡◌, refl, some, [], ◌∷◌, ◌++◌, map, length, arith}
use litefan.Error.{ok}
use litefan.Api.{Publish, new_publish, published}
use litefan.Schema.WellFormed.{WellFormed}
use litefan.Storage.Appends.{next_ids, next_rows}
use litefan.Store.{State}
use litefan.Store.Publish.{publish_batch}
use litefan.Store.Publish.Unkeyed.{publish_batch_unkeyed}
use litefan.Tests.Fixtures.{fan, start, start-WellFormed, pool-ReturnsRows, clock}
use litefan.Tests.Claims.{clock_reads}

abbrev hello : Publish
hello = new_publish (104 ∷ 105 ∷ [])

abbrev work : Publish
work = record (new_publish (111 ∷ [])) { topic = some "jobs" }

publish_batch_unkeyed_example :
    (s' : State) × (publish_batch fan (hello ∷ work ∷ []) clock start
      ≡ ok (map published (next_ids start.db.message_seq (hello ∷ work ∷ [])), s'))
    × (s'.db ≡ record start.db {
      messages = start.db.messages ++ next_rows start.db.message_seq 100 (hello ∷ work ∷ []);
      message_seq = start.db.message_seq + length (hello ∷ work ∷ []);
    })
    × WellFormed s'.db
publish_batch_unkeyed_example =
    publish_batch_unkeyed fan hello (work ∷ []) clock 100 start pool-ReturnsRows start-WellFormed
      clock_reads (omega arith) refl
