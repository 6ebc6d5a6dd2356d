-- ===== src/Store/Publish/Keyed.antt =====
-- `publish_batch` of src/store.rs for a batch with idempotency keys.
use litefan.Prelude.{
  ℕ, ◌≤◌, ◌≡◌, refl, true, not, List, ◌∷◌, is_nil, length, exists_where, if◌then◌else◌,
}
use litefan.Error.{ok}
use litefan.Api.{Publish, PublishOutcome}
use litefan.Time.{SystemTime, now_ms, checked_add}
use litefan.Schema.WellFormed.{WellFormed}
use litefan.Signals.{notify_publishes}
use litefan.Storage.{ReturnsRows}
use litefan.Store.{State, LiteFan}
use litefan.Store.Limits.{ensure_batch_size-le}
use litefan.Store.Publish.{topics, has_no_key, publish_batch, publish_keyed_batch}
use litefan.Store.Publish.Transaction.{IsPublished, keyed_transaction_lem}

-- If RETURNING gives each row once, the database is well-formed, the clock reads `published_at`, the
-- idempotency window ends at a representable time, and a batch within the limit has a message with a
-- key, `publish_batch` succeeds and does what publishing the messages one by one does: given what the
-- ledger knows once expired keys are dropped, a message whose key is known is answered as a duplicate
-- of the message that has it; any other is appended to the log under the next ID and makes its key
-- known. Afterwards the ledger knows every key as publishing one by one would, and the database is
-- well-formed.
pub publish_batch_keyed :
    (fan : LiteFan) (m : Publish) (ms : List Publish) (clock : SystemTime)
    (published_at expires_at : ℕ) (s : State)
    → ReturnsRows fan.pool
    → WellFormed s.db
    → now_ms clock ≡ ok published_at
    → checked_add published_at fan.idempotency_window_ms ≡ ok expires_at
    → length (m ∷ ms) ≤ fan.max_batch_size
    → exists_where (λ (p : Publish). not (has_no_key p)) (m ∷ ms) ≡ true
    → (os : List PublishOutcome) × (s' : State) × (publish_batch fan (m ∷ ms) clock s ≡ ok (os, s'))
      × IsPublished s.db published_at (m ∷ ms) os s'.db
unfolding publish_batch publish_keyed_batch
publish_batch_keyed fan m ms clock published_at expires_at s lawful w e window room key =
    let (done, run, to_publish, good) =
      keyed_transaction_lem fan (m ∷ ms) published_at expires_at s.db lawful w in
    (
      done.outcomes,
      record {
        db = done.db;
        signals =
            if is_nil done.to_publish
            then s.signals
            else notify_publishes (topics done.to_publish) s.signals;
      },
      rw (ensure_batch_size-le fan (length (m ∷ ms)) room, key, e, window, run) refl,
      good,
    )
