-- ===== src/Store/Publish/Keeps.antt =====
-- `publish_batch` of src/store.rs: whatever succeeds keeps the invariant.
use litefan.Prelude.{inl, inr, not, List, [], ◌∷◌, arith, ltb, length, exists_where, Bool-cases}
use litefan.Error.{Result-cases}
use litefan.Error.Ensures.{Ensures, Ensures-ok, Ensures-run}
use litefan.Api.{Publish, PublishOutcome}
use litefan.Time.{SystemTime, now_ms, checked_add}
use litefan.Schema.WellFormed.{WellFormed}
use litefan.Storage.{ReturnsRows}
use litefan.Store.{State, LiteFan, ensure_batch_size}
use litefan.Store.Publish.{has_no_key, publish_batch, publish_keyed_batch, publish_unkeyed_batch}
use litefan.Store.Publish.Keyed.{publish_batch_keyed}
use litefan.Store.Publish.Unkeyed.{publish_batch_unkeyed}

abbrev Post : List PublishOutcome × State → Type 0
Post r = WellFormed r.1.db

-- A successful `publish_batch` leaves a well-formed database.
pub publish_batch-WellFormed :
    (fan : LiteFan) (s : State)
    → ReturnsRows fan.pool
    → WellFormed s.db
    → (messages : List Publish) (clock : SystemTime)
    → Ensures Post (publish_batch fan messages clock s)
unfolding publish_batch publish_keyed_batch publish_unkeyed_batch ensure_batch_size
publish_batch-WellFormed fan s lawful w [] clock done h = Ensures-ok Post _ w done h
publish_batch-WellFormed fan s lawful w (m ∷ ms) clock done h =
    elim (Bool-cases (ltb fan.max_batch_size (length (m ∷ ms)))) [
      | inl t ↦ cc (rw t at h)
      | inr f ↦ elim (Bool-cases (exists_where (λ (p : Publish). not (has_no_key p)) (m ∷ ms))) [
        | inr unkeyed ↦ elim (Result-cases (now_ms clock)) [
          | inr (e, p) ↦ cc (rw (f, unkeyed, p) at h)
          | inl (now, p) ↦
              let (s', run, same, good) =
                publish_batch_unkeyed fan m ms clock now s lawful w p (ground (arith, f)) unkeyed in
              Ensures-run Post _ _ run good done h
        ]
        | inl keyed ↦ elim (Result-cases (now_ms clock)) [
          | inr (e, p) ↦ cc (rw (f, keyed, p) at h)
          | inl (now, p) ↦ elim (Result-cases (checked_add now fan.idempotency_window_ms)) [
            | inr (e, q) ↦ cc (rw (f, keyed, p, q) at h)
            | inl (expires_at, q) ↦
                let (os, s', run, good) =
                  publish_batch_keyed fan m ms clock now expires_at s lawful w p q
                    (ground (arith, f)) keyed in
                Ensures-run Post _ _ run good.well_formed done h
          ]
        ]
      ]
    ]
