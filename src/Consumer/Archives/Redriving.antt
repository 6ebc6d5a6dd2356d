-- ===== src/Consumer/Archives/Redriving.antt =====
-- What `redrive_batch` answers and leaves behind.
use litefan.Prelude.{
  count_where, ℕ, ◌-◌, ◌≤◌, ◌≡◌, refl, inl, List, [], ◌∷◌, arith, delete_where, length, is_nil,
  if◌then◌else◌,
}
use litefan.Error.{ok}
use litefan.Error.Ensures.{of_if}
use litefan.Api.{Retry, delay}
use litefan.Time.{SystemTime, now_ms, add_duration}
use litefan.Schema.{ArchiveRow}
use litefan.Schema.WellFormed.{WellFormed}
use litefan.Storage.{ReturnsRows}
use litefan.Store.{State}
use litefan.Store.Limits.{ensure_batch_size-le}
use litefan.Consumer.{Consumer}
use litefan.Consumer.Receipts.{notified}
use litefan.Consumer.Archives.{picks, redrive_batch}
use litefan.Consumer.Archives.Redriven.{
  IsRedriven, restored, after, length-restored, redrive_transaction_lem,
  redrive_transaction-IsRedriven,
}

nothing_picked :
    (self : Consumer) (rows : List ArchiveRow) → rows ≡ delete_where (picks self.id []) rows
nothing_picked self [] = refl
nothing_picked self (a ∷ rows) = ground (arith, nothing_picked self rows)

nothing_counted :
    (self : Consumer) (rows : List ArchiveRow) → count_where (picks self.id []) rows ≡ 0
nothing_counted self [] = refl
nothing_counted self (a ∷ rows) = ground (arith, nothing_counted self rows)

module _ (self : Consumer) (retry : Retry) (clock : SystemTime) (now visible_at : ℕ) (s : State)
    (lawful : ReturnsRows self.fan.pool) (w : WellFormed s.db) where
  -- If RETURNING gives each row once, the database is well-formed, the batch is within the limit, the
  -- clock reads `now` and the retry is in range, `redrive_batch` succeeds: it
  -- counts the archives of the consumer that the batch names, each once; each archive of the
  -- consumer that the batch names is gone and is a delivery that is visible after the delay, of
  -- generation 0 and with no claims counted; no other delivery is new; every other archive and every delivery, message, consumer
  -- and idempotency key is as it was, and the database is well-formed.
  pub redrive_batch-IsRedriven :
      (archive_ids : List ℕ)
      → length archive_ids ≤ self.fan.max_batch_size
      → now_ms clock ≡ ok now
      → add_duration now (delay retry) ≡ ok visible_at
      → let applied = count_where (picks self.id archive_ids) s.db.archives in
        (s' : State) × (redrive_batch self archive_ids retry clock s
          ≡ ok (record { applied = applied; stale = length archive_ids - applied }, s'))
        × IsRedriven self archive_ids visible_at s.db s'.db
  unfolding redrive_batch
  redrive_batch-IsRedriven [] room e f = (
    s,
    rw (nothing_counted self s.db.archives) refl,
    record {
      valid = w;
      left = nothing_picked self s.db.archives;
      moved = λ a m t. absurd (ground arith);
      earlier = λ d m. m;
      source = λ d m. inl m;
      same_messages = refl;
      same_consumers = refl;
      same_ledger = refl;
    },
  )
  redrive_batch-IsRedriven (i ∷ is) room e f = (
    if is_nil ids then s' else notified self s',
    rw
        (
          ensure_batch_size-le self.fan (length (i ∷ is)) room,
          e,
          f,
          redrive_transaction_lem self (i ∷ is) visible_at s.db lawful w,
          length-restored self (i ∷ is) visible_at s.db lawful w,
        )
        refl,
    of_if (λ (t : State). IsRedriven self (i ∷ is) visible_at s.db t.db) (is_nil ids) s'
        (notified self s') (redrive_transaction-IsRedriven self (i ∷ is) visible_at s.db lawful w)
        (redrive_transaction-IsRedriven self (i ∷ is) visible_at s.db lawful w),
  )
    where
      ids : List ℕ
      ids = (restored self (i ∷ is) visible_at s.db lawful w).message_ids

      s' : State
      s' = record s { db = after self (i ∷ is) visible_at s.db lawful w }
