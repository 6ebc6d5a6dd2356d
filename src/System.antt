-- ===== src/System.antt =====
-- The store as a whole: its operations (src/store.rs, src/consumer.rs) as the steps of one state, in
-- any order and by any handles. A call that fails is no step, but a claim, whose leases may be
-- committed before it fails.
pub mod Safety
use litefan.Prelude.{ℕ, ◌≤◌, ◌≡◌, String, Bool, Option, List}
use litefan.Error.{ok}
use litefan.Api.{
  Publish, PublishOutcome, Filter, Receipt, Retry, Duration, BatchResult, PurgeArchives, DeleteMode,
  DeleteOutcome, Prune,
}
use litefan.Time.{SystemTime, i64_max}
use litefan.Schema.{empty}
use litefan.Signals.{new_signals}
use litefan.Store.{State, LiteFan}
use litefan.Store.Publish.{publish_batch}
use litefan.Store.Retention.{delete_consumer, prune_messages}
use litefan.Consumer.{Consumer}
use litefan.Consumer.Lifecycle.{open_consumer, begin_draining}
use litefan.Consumer.Claim.{alone, claim}
use litefan.Consumer.Receipts.{ack_batch, nack_batch, extend_visibility_batch}
use litefan.Consumer.Archives.{archive_batch_with_detail, redrive_batch, purge_archives}

-- A store whose file was just created.
abbrev pub new_store : State
new_store = record { db = empty; signals = new_signals }

pub data Step (fan : LiteFan) (s : State) : State → Type 0 where
  publishes :
      (messages : List Publish) (clock : SystemTime) {os : List PublishOutcome} {t : State}
      → publish_batch fan messages clock s ≡ ok (os, t)
      → Step fan s t
  opens :
      (name : String) (filter : Filter) (clock : SystemTime) {self : Consumer} {t : State}
      → open_consumer fan name filter clock s ≡ ok (self, t)
      → Step fan s t
  drains :
      (self : Consumer) (clock : SystemTime) {changed : Bool} {t : State}
      → begin_draining self clock (λ db. db) s ≡ ok (changed, t)
      → Step fan s t
  claims :
      (self : Consumer) (max_messages lease_ms : ℕ) (clock : SystemTime)
      → self.fan ≡ fan
      → max_messages ≤ i64_max
      → Step fan s (claim self max_messages lease_ms clock alone s).1
  acks :
      (self : Consumer) (receipts : List Receipt) {r : BatchResult} {t : State}
      → ack_batch self receipts s ≡ ok (r, t)
      → Step fan s t
  nacks :
      (self : Consumer) (receipts : List Receipt) (retry : Retry) (clock : SystemTime)
      {r : BatchResult} {t : State}
      → nack_batch self receipts retry clock s ≡ ok (r, t)
      → Step fan s t
  extends :
      (self : Consumer) (receipts : List Receipt) (timeout : Duration) (clock : SystemTime)
      {r : BatchResult} {t : State}
      → extend_visibility_batch self receipts timeout clock s ≡ ok (r, t)
      → Step fan s t
  archives :
      (self : Consumer) (receipts : List Receipt) (detail : Option String) (clock : SystemTime)
      {r : BatchResult} {t : State}
      → self.fan ≡ fan
      → archive_batch_with_detail self receipts detail clock s ≡ ok (r, t)
      → Step fan s t
  redrives :
      (self : Consumer) (archive_ids : List ℕ) (retry : Retry) (clock : SystemTime)
      {r : BatchResult} {t : State}
      → self.fan ≡ fan
      → redrive_batch self archive_ids retry clock s ≡ ok (r, t)
      → Step fan s t
  purges :
      (self : Consumer) (purge : PurgeArchives) {deleted : ℕ} {t : State}
      → self.fan ≡ fan
      → purge_archives self purge s ≡ ok (deleted, t)
      → Step fan s t
  deletes :
      (name : String) (mode : DeleteMode) {outcome : DeleteOutcome} {t : State}
      → delete_consumer name mode s ≡ ok (outcome, t)
      → Step fan s t
  prunes :
      (prune : Prune) {deleted : ℕ} {t : State}
      → prune_messages fan prune s ≡ ok (deleted, t)
      → Step fan s t

-- What can be reached from a new store.
pub data Reach (fan : LiteFan) : State → Type 0 where
  start : Reach fan new_store
  later : {s t : State} → Reach fan s → Step fan s t → Reach fan t
