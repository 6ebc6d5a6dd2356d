-- ===== src/Consumer/Archives/Keeps.antt =====
-- Archives of src/consumer.rs: whatever succeeds keeps the invariant.
use litefan.Prelude.{
  ℕ, inl, inr, Option, List, [], ◌∷◌, arith, ◌==◌, ltb, length, exists_where, String, Bool-cases,
}
use litefan.Error.{Result-cases}
use litefan.Error.Ensures.{Ensures, Ensures-ok, Ensures-run, Ensures-err, Ensures-if, Ensures-bind}
use litefan.Api.{Receipt, Retry, delay, PurgeArchives}
use litefan.Time.{SystemTime, now_ms, add_duration, fits_i64}
use litefan.Schema.{ArchiveRow}
use litefan.Schema.WellFormed.{WellFormed}
use litefan.Schema.Changes.{WellFormed-fewer_archives}
use litefan.Storage.{ReturnsRows}
use litefan.Store.{State, ensure_batch_size}
use litefan.Consumer.{Consumer}
use litefan.Consumer.Archives.{archive_batch_with_detail, redrive_batch, purge_archives, purgeable}
use litefan.Consumer.Archives.Outcome.{archive_batch-IsArchived}
use litefan.Consumer.Archives.Redriving.{redrive_batch-IsRedriven}

abbrev Post {ℓ} : {A : Type ℓ} → A × State → Type 0
Post r = WellFormed r.1.db

module _ (self : Consumer) (s : State) (lawful : ReturnsRows self.fan.pool)
    (w : WellFormed s.db) where
  -- A successful `archive_batch_with_detail` leaves a well-formed database.
  pub archive_batch-WellFormed :
      (receipts : List Receipt) (detail : Option String) (clock : SystemTime)
      → Ensures Post (archive_batch_with_detail self receipts detail clock s)
  unfolding archive_batch_with_detail ensure_batch_size
  archive_batch-WellFormed [] detail clock done h = Ensures-ok Post _ w done h
  archive_batch-WellFormed (r ∷ rs) detail clock done h =
      elim (Bool-cases (ltb self.fan.max_batch_size (length (r ∷ rs)))) [
        | inl t ↦ cc (rw t at h)
        | inr f ↦ elim (Result-cases (now_ms clock)) [
          | inr (e, p) ↦ cc (rw (f, p) at h)
          | inl (now, p) ↦
              let (s', run, good) =
                archive_batch-IsArchived self detail clock now s lawful w (r ∷ rs)
                  (ground (arith, f)) p in
              Ensures-run Post _ _ run good.valid done h
        ]
      ]

  -- A successful `redrive_batch` leaves a well-formed database.
  pub redrive_batch-WellFormed :
      (archive_ids : List ℕ) (retry : Retry) (clock : SystemTime)
      → Ensures Post (redrive_batch self archive_ids retry clock s)
  unfolding redrive_batch ensure_batch_size
  redrive_batch-WellFormed [] retry clock done h = Ensures-ok Post _ w done h
  redrive_batch-WellFormed (i ∷ is) retry clock done h =
      elim (Bool-cases (ltb self.fan.max_batch_size (length (i ∷ is)))) [
        | inl t ↦ cc (rw t at h)
        | inr f ↦ elim (Result-cases (now_ms clock)) [
          | inr (e, p) ↦ cc (rw (f, p) at h)
          | inl (now, p) ↦ elim (Result-cases (add_duration now (delay retry))) [
            | inr (e, q) ↦ cc (rw (f, p, q) at h)
            | inl (visible_at, q) ↦
                let (s', run, good) =
                  redrive_batch-IsRedriven self retry clock now visible_at s lawful w (i ∷ is)
                    (ground (arith, f)) p q in
                Ensures-run Post _ _ run good.valid done h
          ]
        ]
      ]

  -- A successful `purge_archives` leaves a well-formed database.
  pub purge_archives-WellFormed :
      (purge : PurgeArchives) → Ensures Post (purge_archives self purge s)
  unfolding purge_archives
  purge_archives-WellFormed purge =
      Ensures-if Post (purge.max_archives == 0) _ _ (Ensures-ok Post _ w) (
        Ensures-bind Post (ensure_batch_size self.fan purge.max_archives) _ λ u _.
          Ensures-if Post (fits_i64 purge.max_archives) _ _
            (Ensures-ok Post _ (
              WellFormed-fewer_archives s.db
                (λ (a : ArchiveRow). exists_where (λ id. id == a.id) (purgeable self purge s.db))
                w))
            (Ensures-err Post _))
