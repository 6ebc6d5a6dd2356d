-- ===== src/Store/Publish/Unkeyed.antt =====
-- `publish_batch` of src/store.rs for messages without an idempotency key.
use litefan.Prelude.{ℕ, ◌+◌, ◌≤◌, ◌≡◌, refl, not, false, List, ◌∷◌, ◌++◌, map, length, exists_where}
use litefan.Error.{ok}
use litefan.Api.{Publish, published}
use litefan.Time.{SystemTime, now_ms}
use litefan.Schema.WellFormed.{WellFormed}
use litefan.Signals.{notify_publishes}
use litefan.Storage.{ReturnsRows}
use litefan.Storage.Appends.{
  next_ids, next_rows, appended, insert_message_rows_lem, appended-WellFormed,
}
use litefan.Store.{State, LiteFan}
use litefan.Store.Limits.{ensure_batch_size-le}
use litefan.Store.Publish.{has_no_key, topics, publish_batch, publish_unkeyed_batch}

-- If RETURNING gives each row once, the database is well-formed, the clock reads `published_at`, and a
-- batch within the limit has no message with a key, `publish_batch` succeeds: it appends the messages
-- to the log in their order, under the next IDs, answers each message with the ID of its own row,
-- touches no other table, and leaves the database well-formed.
pub publish_batch_unkeyed :
    (fan : LiteFan) (m : Publish) (ms : List Publish) (clock : SystemTime) (published_at : ℕ)
    (s : State)
    → ReturnsRows fan.pool
    → WellFormed s.db
    → now_ms clock ≡ ok published_at
    → length (m ∷ ms) ≤ fan.max_batch_size
    → exists_where (λ (p : Publish). not (has_no_key p)) (m ∷ ms) ≡ false
    → (s' : State) × (publish_batch fan (m ∷ ms) clock s
        ≡ ok (map published (next_ids s.db.message_seq (m ∷ ms)), s'))
      × (s'.db ≡ record s.db {
        messages = s.db.messages ++ next_rows s.db.message_seq published_at (m ∷ ms);
        message_seq = s.db.message_seq + length (m ∷ ms);
      })
      × WellFormed s'.db
unfolding publish_batch publish_unkeyed_batch
publish_batch_unkeyed fan m ms clock published_at s lawful w e room no_key = (
  record {
    db = appended s.db (m ∷ ms) published_at;
    signals = notify_publishes (topics (m ∷ ms)) s.signals;
  },
  rw
      (
        ensure_batch_size-le fan (length (m ∷ ms)) room,
        no_key,
        e,
        insert_message_rows_lem fan.pool lawful (m ∷ ms) published_at s.db,
      )
      refl,
  refl,
  appended-WellFormed s.db (m ∷ ms) published_at w,
)
