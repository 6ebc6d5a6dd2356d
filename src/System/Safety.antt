-- ===== src/System/Safety.antt =====
-- Every state that the store can reach is well-formed.
use litefan.Prelude.{ℕ, ◌≡◌, sym, subst, inl, inr, arith, ltb, ◌==◌, Bool-cases}
use litefan.Error.Ensures.{Ensures, Ensures-ok, Ensures-run}
use litefan.Api.{Prune}
use litefan.Time.{fits_i64}
use litefan.Schema.WellFormed.{WellFormed, empty-WellFormed}
use litefan.Storage.{ReturnsRows}
use litefan.Store.{State, LiteFan, ensure_batch_size}
use litefan.Store.Publish.Keeps.{publish_batch-WellFormed}
use litefan.Store.Retention.{prune_messages}
use litefan.Store.Retention.Pruning.{prune_messages-IsPruned}
use litefan.Store.Retention.Erasure.{delete_consumer-IsDeleted}
use litefan.Consumer.{Consumer}
use litefan.Consumer.Lifecycle.Draining.{begin_draining-WellFormed}
use litefan.Consumer.Lifecycle.Opening.{open_consumer-WellFormed}
use litefan.Consumer.Claim.Answer.{claim-WellFormed}
use litefan.Consumer.Receipts.Keeps.{
  ack_batch-WellFormed, nack_batch-WellFormed, extend_visibility_batch-WellFormed,
}
use litefan.Consumer.Archives.Keeps.{
  archive_batch-WellFormed, redrive_batch-WellFormed, purge_archives-WellFormed,
}
use litefan.System.{Step, Reach}

prune_messages-WellFormed :
    (fan : LiteFan) (prune : Prune) (s : State)
    → WellFormed s.db
    → Ensures (λ (r : ℕ × State). WellFormed r.1.db) (prune_messages fan prune s)
unfolding prune_messages ensure_batch_size
prune_messages-WellFormed fan prune s w done h =
    let P : ℕ × State → Type 0 = λ r. WellFormed r.1.db in
    elim (Bool-cases (prune.max_messages == 0)) [
      | inl zero ↦ Ensures-ok P _ w done (rw zero at h)
      | inr some ↦ elim (Bool-cases (ltb fan.max_batch_size prune.max_messages)) [
        | inl t ↦ cc (rw (some, t) at h)
        | inr f ↦ elim (Bool-cases (fits_i64 prune.max_messages)) [
          | inr large ↦ cc (rw (some, f, large) at h)
          | inl fits ↦
              let (deleted, s', run, le, quiet, good) =
                prune_messages-IsPruned fan prune s w (ground (arith, f)) (ground (arith, fits)) in
              Ensures-run P _ _ run good.valid done h
        ]
      ]
    ]

module _ (fan : LiteFan) (lawful : ReturnsRows fan.pool) where
  own : (self : Consumer) → self.fan ≡ fan → ReturnsRows self.fan.pool
  own self e = subst (λ (f : LiteFan). ReturnsRows f.pool) (sym e) lawful

  step-WellFormed : {s t : State} → WellFormed s.db → Step fan s t → WellFormed t.db
  step-WellFormed {s = s} w (Step.publishes messages clock h) =
      publish_batch-WellFormed fan s lawful w messages clock _ h
  step-WellFormed {s = s} w (Step.opens name filter clock h) =
      open_consumer-WellFormed fan name filter clock s w _ h
  step-WellFormed {s = s} w (Step.drains self clock h) =
      begin_draining-WellFormed self clock (λ db. db) s (λ db v. v) w _ h
  step-WellFormed {s = s} w (Step.claims self max_messages lease_ms clock e small) =
      claim-WellFormed self max_messages (own self e) small lease_ms clock _ s
        (record { before = λ db v. v; after = λ db v. v }) w
  step-WellFormed {s = s} w (Step.acks self receipts h) = ack_batch-WellFormed self receipts s w _ h
  step-WellFormed {s = s} w (Step.nacks self receipts retry clock h) =
      nack_batch-WellFormed self receipts s w retry clock _ h
  step-WellFormed {s = s} w (Step.extends self receipts timeout clock h) =
      extend_visibility_batch-WellFormed self receipts s w timeout clock _ h
  step-WellFormed {s = s} w (Step.archives self receipts detail clock e h) =
      archive_batch-WellFormed self s (own self e) w receipts detail clock _ h
  step-WellFormed {s = s} w (Step.redrives self archive_ids retry clock e h) =
      redrive_batch-WellFormed self s (own self e) w archive_ids retry clock _ h
  step-WellFormed {s = s} w (Step.purges self purge e h) =
      purge_archives-WellFormed self s (own self e) w purge _ h
  step-WellFormed {s = s} w (Step.deletes name mode {outcome = o} {t = t} h) =
      (delete_consumer-IsDeleted name mode s o t w h).valid
  step-WellFormed {s = s} w (Step.prunes prune h) = prune_messages-WellFormed fan prune s w _ h

-- If RETURNING gives each row once, every state that a new store reaches by its operations, in any
-- order and by any handles, has a well-formed database.
pub reach-WellFormed :
    (fan : LiteFan) → ReturnsRows fan.pool → {s : State} → Reach fan s → WellFormed s.db
reach-WellFormed fan lawful Reach.start = empty-WellFormed
reach-WellFormed fan lawful (Reach.later r step) =
    step-WellFormed fan lawful (reach-WellFormed fan lawful r) step
