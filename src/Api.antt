-- ===== src/Api.antt =====
-- src/api.rs: the public data model. A duration is its number of nanoseconds, a time stamp its
-- number of milliseconds since the Unix epoch, a body or a key its list of bytes.
use litefan.Prelude.{
  ℕ, suc, zero, ◌-◌, ◌*◌, String, Bool, true, false, Option, none, some, List, ltb, ◌==◌, ◌&&◌,
}

abbrev pub Duration : Type 0
Duration = ℕ

abbrev pub from_millis : ℕ → Duration
from_millis n = n * 1_000_000

abbrev pub from_secs : ℕ → Duration
from_secs n = n * 1_000_000_000

-- An `i64` that a caller supplies; `negsuc n` is -(n + 1).
pub data ℤ : Type 0 where
  pos : ℕ → ℤ
  negsuc : ℕ → ℤ

-- `stamp < bound`
abbrev pub earlier : ℕ → ℤ → Bool
earlier stamp (pos n) = ltb stamp n
earlier stamp (negsuc n) = false

pub data Synchronous : Type 0 where
  off normal full extra : Synchronous

pub record Config : Type 0 where
  pub max_connections : ℕ
  pub max_batch_size : ℕ
  pub busy_timeout : Duration
  pub synchronous : Synchronous
  pub wal_autocheckpoint_pages : ℕ
  pub cross_process_poll_interval : Duration
  pub idempotency_window : Duration

abbrev pub default_config : Config
default_config = record {
  max_connections = 4;
  max_batch_size = 500;
  busy_timeout = from_secs 5;
  synchronous = normal;
  wal_autocheckpoint_pages = 1_000;
  cross_process_poll_interval = from_millis 250;
  idempotency_window = from_secs 86_400;
}

pub data Filter : Type 0 where
  all : Filter
  topic : String → Filter

abbrev pub as_database_value : Filter → Option String
as_database_value all = none
as_database_value (topic t) = some t

pub record Publish : Type 0 where
  pub topic : Option String
  pub body : List ℕ
  pub idempotency_key : Option (List ℕ)

abbrev pub new_publish : List ℕ → Publish
new_publish body = record { topic = none; body = body; idempotency_key = none }

abbrev pub with_topic : Publish → String → Publish
with_topic p t = record p { topic = some t }

abbrev pub with_idempotency_key : Publish → List ℕ → Publish
with_idempotency_key p key = record p { idempotency_key = some key }

pub data PublishOutcome : Type 0 where
  published duplicate : ℕ → PublishOutcome

abbrev pub outcome_id : PublishOutcome → ℕ
outcome_id (published id) = id
outcome_id (duplicate id) = id

abbrev pub is_published : PublishOutcome → Bool
is_published (published id) = true
is_published (duplicate id) = false

pub record Message : Type 0 where
  pub id : ℕ
  pub topic : Option String
  pub body : List ℕ
  pub published_at_ms : ℕ

pub record Receipt : Type 0 where
  pub consumer_id : ℕ
  pub message_id : ℕ
  pub generation : ℕ

pub record Delivery : Type 0 where
  pub message : Message
  pub delivery_count : ℕ
  pub receipt : Receipt

-- `ArchiveId::new`
abbrev pub new_archive_id : ℤ → Option ℕ
new_archive_id (pos (suc n)) = some (suc n)
new_archive_id (pos zero) = none
new_archive_id (negsuc n) = none

pub record ArchivedDelivery : Type 0 where
  pub id : ℕ
  pub message : Message
  pub delivery_count : ℕ
  pub archived_at_ms : ℕ
  pub detail : Option String

pub record ListArchives : Type 0 where
  pub after : Option ℕ
  pub max_archives : ℕ

abbrev pub default_list_archives : ListArchives
default_list_archives = record { after = none; max_archives = 100 }

pub record PurgeArchives : Type 0 where
  pub before_ms : ℤ
  pub max_archives : ℕ

pub record Poll : Type 0 where
  pub max_messages : ℕ
  pub visibility_timeout : Duration
  pub wait : Duration

abbrev pub default_poll : Poll
default_poll = record { max_messages = 100; visibility_timeout = from_secs 30; wait = from_secs 20 }

pub data Retry : Type 0 where
  immediately : Retry
  after : Duration → Retry

abbrev pub delay : Retry → Duration
delay immediately = 0
delay (after d) = d

pub record BatchResult : Type 0 where
  pub applied : ℕ
  pub stale : ℕ

abbrev pub default_batch_result : BatchResult
default_batch_result = record { applied = 0; stale = 0 }

pub data ConsumerState : Type 0 where
  active draining : ConsumerState

pub record ConsumerSnapshot : Type 0 where
  pub name : String
  pub filter : Filter
  pub state : ConsumerState
  pub created_at_ms : ℕ
  pub draining_at_ms : Option ℕ
  pub outstanding : ℕ
  pub ready : ℕ
  pub next_ready_at_ms : Option ℕ
  pub oldest_outstanding_at_ms : Option ℕ
  pub archived : ℕ

abbrev pub is_empty : ConsumerSnapshot → Bool
is_empty s = s.outstanding == 0

abbrev pub is_draining : ConsumerState → Bool
is_draining active = false
is_draining draining = true

abbrev pub is_drained : ConsumerSnapshot → Bool
is_drained s = is_draining s.state && is_empty s

abbrev pub not_ready : ConsumerSnapshot → ℕ
not_ready s = s.outstanding - s.ready

pub record StoreSnapshot : Type 0 where
  pub retained_messages : ℕ
  pub idempotency_keys : ℕ
  pub outstanding_deliveries : ℕ
  pub archived_deliveries : ℕ
  pub consumers : List ConsumerSnapshot

pub data DeleteMode : Type 0 where
  drained_only discard_outstanding discard_all : DeleteMode

pub record DeleteOutcome : Type 0 where
  pub discarded_deliveries : ℕ
  pub discarded_archives : ℕ

pub record Prune : Type 0 where
  pub before_ms : ℤ
  pub max_messages : ℕ
