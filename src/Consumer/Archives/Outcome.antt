-- ===== src/Consumer/Archives/Outcome.antt =====
-- What `archive_batch_with_detail` answers and leaves behind.
use litefan.Prelude.{
  ◌⊎◌, inl, ℕ, String, ◌-◌, ◌≤◌, ◌≡◌, ◌≢◌, refl, sym, true, Option, List, [], ◌∷◌, Among,
  Among-append_left, count_where, delete_where, length, is_nil, arith, if◌then◌else◌,
}
use litefan.Error.{ok}
use litefan.Error.Ensures.{of_if}
use litefan.Api.{Receipt}
use litefan.Time.{SystemTime, now_ms}
use litefan.Schema.{Database, DeliveryRow, ArchiveRow}
use litefan.Schema.WellFormed.{WellFormed}
use litefan.Schema.Inserts.{with_archives}
use litefan.Storage.{ReturnsRows, ArchivedLease, owns, receipt_predicate}
use litefan.Store.{State}
use litefan.Store.Limits.{ensure_batch_size-le}
use litefan.Consumer.{Consumer}
use litefan.Consumer.Receipts.{notified}
use litefan.Consumer.Receipts.Chunks.{owns-nil}
use litefan.Consumer.Archives.{archive_batch_with_detail}
use litefan.Consumer.Archives.Transaction.{
  archived, news, remaining, removed_rows, archive_transaction_lem, transaction-WellFormed,
  length-archived, archived-numbered, archived-source,
}

-- The archive with which a delivery ends.
abbrev pub end_of : ℕ → ℕ → Option String → DeliveryRow → ArchiveRow
end_of id archived_at detail d = record {
  id = id;
  consumer_id = d.consumer_id;
  message_id = d.message_id;
  archived_at = archived_at;
  delivery_count = d.delivery_count;
  last_generation = d.generation;
  detail = detail;
}

-- The deliveries that a receipt of the batch names are archives, with the time, the detail and what
-- the delivery was; the others are as they were, and so are the messages and the consumers.
pub record IsArchived (self : Consumer) (receipts : List Receipt) (detail : Option String)
    (archived_at : ℕ) (before after : Database) : Type 0 where
  pub valid : WellFormed after
  pub left : after.deliveries ≡ delete_where (owns self.id receipts) before.deliveries
  pub moved :
      (d : DeliveryRow)
      → Among d before.deliveries
      → owns self.id receipts d ≡ true
      → (id : ℕ) × Among (end_of id archived_at detail d) after.archives
  pub earlier : (a : ArchiveRow) → Among a before.archives → Among a after.archives
  pub source :
      (a : ArchiveRow)
      → Among a after.archives
      → Among a before.archives
        ⊎ ((d : DeliveryRow) × Among d before.deliveries
            × (owns self.id receipts d ≡ true)
            × (a ≡ end_of a.id archived_at detail d))
  pub same_messages : after.messages ≡ before.messages
  pub same_consumers : after.consumers ≡ before.consumers
  pub same_ledger : after.idempotency ≡ before.idempotency

module _ (self : Consumer) (detail : Option String) (clock : SystemTime) (archived_at : ℕ)
    (s : State) (lawful : ReturnsRows self.fan.pool) (w : WellFormed s.db) where
  archive_transaction-IsArchived :
      (receipts : List Receipt)
      → IsArchived self receipts detail archived_at s.db (
          with_archives
            (remaining self receipts detail archived_at s.db lawful w)
            (news self receipts detail archived_at s.db lawful w))
  archive_transaction-IsArchived receipts = record {
    valid = transaction-WellFormed self receipts detail archived_at s.db lawful w;
    left = removed_rows self receipts detail archived_at s.db lawful w;
    moved = archived-numbered self receipts detail archived_at s.db lawful w;
    earlier = λ a m. Among-append_left a s.db.archives _ m;
    source = archived-source self receipts detail archived_at s.db lawful w;
    same_messages = refl;
    same_consumers = refl;
    same_ledger = refl;
  }

  none_named : (d : DeliveryRow) → owns self.id [] d ≢ true
  unfolding owns receipt_predicate
  none_named d t = ground arith

  nothing-IsArchived : IsArchived self [] detail archived_at s.db s.db
  nothing-IsArchived = record {
    valid = w;
    left = sym (owns-nil self.id s.db.deliveries).0;
    moved = λ d m t. absurd (none_named d t);
    earlier = λ a m. m;
    source = λ a m. inl m;
    same_messages = refl;
    same_consumers = refl;
    same_ledger = refl;
  }

  -- If RETURNING gives each row once, the database is well-formed, the batch is within the limit and
  -- the clock reads `archived_at`, `archive_batch_with_detail` succeeds: it counts the deliveries that
  -- the receipts name, replaces each by an archive with that time, the detail, the delivery's generation and its
  -- count and adds no other, and leaves every other delivery, every archive, message, consumer and idempotency key as it
  -- was, and the database well-formed.
  pub archive_batch-IsArchived :
      (receipts : List Receipt)
      → length receipts ≤ self.fan.max_batch_size
      → now_ms clock ≡ ok archived_at
      → let applied = count_where (owns self.id receipts) s.db.deliveries in
        (s' : State) × (archive_batch_with_detail self receipts detail clock s
          ≡ ok (record { applied = applied; stale = length receipts - applied }, s'))
        × IsArchived self receipts detail archived_at s.db s'.db
  unfolding archive_batch_with_detail
  archive_batch-IsArchived [] room e =
      (s, rw (owns-nil self.id s.db.deliveries).1 refl, nothing-IsArchived)
  archive_batch-IsArchived (r ∷ rs) room e = (
    if is_nil moved then s' else notified self s',
    rw
        (
          ensure_batch_size-le self.fan (length (r ∷ rs)) room,
          e,
          archive_transaction_lem self (r ∷ rs) detail archived_at s.db lawful w,
          length-archived self (r ∷ rs) detail archived_at s.db lawful w,
        )
        refl,
    of_if (λ (t : State). IsArchived self (r ∷ rs) detail archived_at s.db t.db) (is_nil moved) s'
        (notified self s') (archive_transaction-IsArchived (r ∷ rs))
        (archive_transaction-IsArchived (r ∷ rs)),
  )
    where
      moved : List ArchivedLease
      moved = archived self (r ∷ rs) detail archived_at s.db lawful w

      s' : State
      s' = record s {
        db =
            with_archives (remaining self (r ∷ rs) detail archived_at s.db lawful w)
              (news self (r ∷ rs) detail archived_at s.db lawful w);
      }
