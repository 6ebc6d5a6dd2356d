-- ===== src/Store/Publish.antt =====
-- src/store.rs, `publish` and `publish_batch`: a batch without keys is one insert; a batch with keys
-- goes through the idempotency ledger. The set of keys is taken in the order of first occurrence;
-- the source leaves that order to its hash set.
pub mod OneByOne
pub mod Keys
pub mod Plan
pub mod Learned
pub mod Fill
pub mod Answers
pub mod Seed
pub mod Table
pub mod Transaction
pub mod Keyed
pub mod Again
pub mod Keeps
pub mod Unkeyed
use litefan.Prelude.{
  ℕ, ◌+◌, ◌/◌, String, Bool, true, false, not, ◌&&◌, Option, none, some, List, [], ◌∷◌, ◌++◌, map,
  ◌==◌, bytes_eq, if◌then◌else◌, length, is_nil, is_some, chunks, select, update_where,
  exists_where,
}
use litefan.Error.{Result, ok, err, incomplete_idempotency_entry, ◌>>=◌, ◌>>◌}
use litefan.Api.{Publish, PublishOutcome, published, duplicate}
use litefan.Time.{SystemTime, now_ms, checked_add}
use litefan.Schema.{Database, IdempotencyRow}
use litefan.Signals.{notify_publishes}
use litefan.Storage.{max_sql_variables, insert_message_rows, purge_expired_idempotency}
use litefan.Store.{State, LiteFan, ensure_batch_size}

abbrev pub Key : Type 0
Key = List ℕ

-- `filter_map(|message| message.idempotency_key).collect::<HashSet<_>>()`
unfoldable pub unique_keys : List Publish → List Key
unique_keys [] = []
unique_keys (p ∷ ps) = elim p.idempotency_key [
  | none ↦ unique_keys ps
  | some k ↦ k ∷ select (λ j. not (bytes_eq k j)) (unique_keys ps)
]

abbrev pub has_key : Key → IdempotencyRow → Bool
has_key key row = bytes_eq row.key key

-- INSERT INTO litefan_idempotency … ON CONFLICT DO NOTHING, one row.
unfoldable pub claim_key : ℕ → List IdempotencyRow → Key → List IdempotencyRow
claim_key expires_at rows key =
    if exists_where (has_key key) rows
    then rows
    else rows ++ record { key = key; message_id = none; expires_at = expires_at } ∷ []

unfoldable pub claim_keys : ℕ → List IdempotencyRow → List Key → List IdempotencyRow
unfolding claim_key
claim_keys expires_at rows [] = rows
claim_keys expires_at rows (k ∷ ks) = claim_keys expires_at (claim_key expires_at rows k) ks

unfoldable pub claim_key_chunks : ℕ → List IdempotencyRow → List (List Key) → List IdempotencyRow
unfolding claim_keys
claim_key_chunks expires_at rows [] = rows
claim_key_chunks expires_at rows (c ∷ cs) =
    claim_key_chunks expires_at (claim_keys expires_at rows c) cs

abbrev pub Ledger : Type 0
Ledger = List (Key × Option ℕ)

abbrev pub ledger_entry : IdempotencyRow → Key × Option ℕ
ledger_entry row = (row.key, row.message_id)

-- SELECT key, message_id … WHERE key IN (…), for each chunk of keys.
unfoldable pub read_ledger : List IdempotencyRow → List (List Key) → Ledger
read_ledger rows [] = []
read_ledger rows (c ∷ cs) =
    map ledger_entry
      (select (λ (row : IdempotencyRow). exists_where (λ k. bytes_eq row.key k) c) rows)
    ++ read_ledger rows cs

-- `ledger.get(key)`: what was inserted last comes first.
unfoldable pub ledger_get : Key → Ledger → Option (Option ℕ)
ledger_get key [] = none
ledger_get key ((k, v) ∷ entries) = if bytes_eq k key then some v else ledger_get key entries

-- `is_some_and(Option::is_none)`
abbrev pub is_open : Option (Option ℕ) → Bool
is_open (some none) = true
is_open _ = false

unfoldable pub should_publish : Ledger → List Key → Option Key → Bool
unfolding ledger_get
should_publish ledger scheduled none = true
should_publish ledger scheduled (some key) =
    is_open (ledger_get key ledger) && not (exists_where (bytes_eq key) scheduled)

abbrev pub mark : Option Key → List Key → List Key
mark none scheduled = scheduled
mark (some key) scheduled = key ∷ scheduled

-- One element of `publish_positions` with its element of `to_publish`.
pub record Scheduled : Type 0 where
  pub position : ℕ
  pub message : Publish

unfoldable pub schedule : Ledger → ℕ → List Key → List Publish → List Scheduled
unfolding should_publish
schedule ledger index scheduled [] = []
schedule ledger index scheduled (m ∷ ms) =
    let taken = schedule ledger (index + 1) (mark m.idempotency_key scheduled) ms in
    let skipped = schedule ledger (index + 1) scheduled ms in
    if should_publish ledger scheduled m.idempotency_key
    then record { position = index; message = m } ∷ taken
    else skipped

-- `publish_positions.zip(ids)`
unfoldable pub published_ids : List Scheduled → List ℕ → List (ℕ × ℕ)
published_ids [] ids = []
published_ids (p ∷ ps) [] = []
published_ids (p ∷ ps) (id ∷ ids) = (p.position, id) ∷ published_ids ps ids

unfoldable pub updates : List Scheduled → List ℕ → List (Key × ℕ)
updates [] ids = []
updates (p ∷ ps) [] = []
updates (p ∷ ps) (id ∷ ids) = elim p.message.idempotency_key [
  | none ↦ updates ps ids
  | some key ↦ (key, id) ∷ updates ps ids
]

-- (SELECT updates.message_id FROM updates WHERE updates.key = …)
unfoldable pub update_for : Key → List (Key × ℕ) → Option ℕ
update_for key [] = none
update_for key ((k, id) ∷ us) = if bytes_eq k key then some id else update_for key us

-- UPDATE litefan_idempotency SET message_id = … WHERE key IN (…), for each chunk of updates.
unfoldable pub fill_chunks : List IdempotencyRow → List (List (Key × ℕ)) → List IdempotencyRow
unfolding update_for
fill_chunks rows [] = rows
fill_chunks rows (c ∷ cs) =
    fill_chunks
      (update_where
        (λ (row : IdempotencyRow). exists_where (λ (u : Key × ℕ). bytes_eq u.0 row.key) c)
        (λ row. record row { message_id = update_for row.key c }) rows)
      cs

unfoldable pub fill_ledger : List (Key × ℕ) → Ledger → Ledger
fill_ledger [] ledger = ledger
fill_ledger ((k, id) ∷ us) ledger = fill_ledger us ((k, some id) ∷ ledger)

unfoldable pub id_at : ℕ → List (ℕ × ℕ) → Option ℕ
id_at index [] = none
id_at index ((i, id) ∷ rest) = if i == index then some id else id_at index rest

-- `and_then(|key| ledger.get(key)).copied().flatten()`
unfoldable pub known_id : Ledger → Option Key → Option ℕ
unfolding ledger_get
known_id ledger none = none
known_id ledger (some key) = elim (ledger_get key ledger) [ none ↦ none | some v ↦ v ]

unfoldable pub outcome_of : List (ℕ × ℕ) → Ledger → ℕ → Option Key → Result PublishOutcome
unfolding id_at known_id
outcome_of ids ledger index key = elim (id_at index ids) [
  | some id ↦ ok (published id)
  | none ↦ elim (known_id ledger key) [
    | none ↦ err incomplete_idempotency_entry
    | some id ↦ ok (duplicate id)
  ]
]

unfoldable pub outcomes : List (ℕ × ℕ) → Ledger → ℕ → List Publish → Result (List PublishOutcome)
unfolding outcome_of
outcomes ids ledger index [] = ok []
outcomes ids ledger index (m ∷ ms) = do
  o ← outcome_of ids ledger index m.idempotency_key
  os ← outcomes ids ledger (index + 1) ms
  ok (o ∷ os)

pub record Published : Type 0 where
  pub outcomes : List PublishOutcome
  pub to_publish : List Publish
  pub db : Database

-- The transaction of a batch with keys.
unfoldable pub keyed_transaction : LiteFan → List Publish → ℕ → ℕ → Database → Result Published
unfolding unique_keys claim_key_chunks read_ledger schedule published_ids updates fill_chunks
    fill_ledger outcomes
keyed_transaction fan messages published_at expires_at db = do
  let purged = purge_expired_idempotency db published_at
  let keys = unique_keys messages
  let rows = claim_key_chunks expires_at purged.idempotency (chunks (max_sql_variables / 2) keys)
  let ledger = read_ledger rows (chunks max_sql_variables keys)
  let plan = schedule ledger 0 [] messages
  let to_publish = map (λ (p : Scheduled). p.message) plan
  let (ids, inserted) = insert_message_rows fan.pool purged to_publish published_at
  let filled = updates plan ids
  os ← outcomes (published_ids plan ids) (fill_ledger filled ledger) 0 messages
  ok (record {
    outcomes = os;
    to_publish = to_publish;
    db = record inserted { idempotency = fill_chunks rows (chunks (max_sql_variables / 2) filled) };
  })

abbrev topics : List Publish → List (Option String)
topics ps = map (λ (p : Publish). p.topic) ps

unfoldable pub publish_keyed_batch :
    LiteFan → List Publish → SystemTime → State → Result (List PublishOutcome × State)
unfolding keyed_transaction
publish_keyed_batch fan messages clock s = do
  published_at ← now_ms clock
  expires_at ← checked_add published_at fan.idempotency_window_ms
  done ← keyed_transaction fan messages published_at expires_at s.db
  ok (
    done.outcomes,
    record {
      db = done.db;
      signals =
          if is_nil done.to_publish
          then s.signals
          else notify_publishes (topics done.to_publish) s.signals;
    },
  )

unfoldable pub publish_unkeyed_batch :
    LiteFan → List Publish → SystemTime → State → Result (List PublishOutcome × State)
publish_unkeyed_batch fan messages clock s = do
  published_at ← now_ms clock
  let (ids, db) = insert_message_rows fan.pool s.db messages published_at
  ok (map published ids, record { db = db; signals = notify_publishes (topics messages) s.signals })

abbrev pub has_no_key : Publish → Bool
has_no_key p = not (is_some p.idempotency_key)

unfoldable pub publish_batch :
    LiteFan → List Publish → SystemTime → State → Result (List PublishOutcome × State)
unfolding publish_keyed_batch publish_unkeyed_batch
publish_batch fan messages clock s = if is_nil messages then ok ([], s) else do
  ensure_batch_size fan (length messages)
  if exists_where (λ p. not (has_no_key p)) messages
      then publish_keyed_batch fan messages clock s
      else publish_unkeyed_batch fan messages clock s

-- `remove(0)` of the outcomes of a batch of one; `none` is its panic on an empty vector.
unfoldable pub publish :
    LiteFan → Publish → SystemTime → State → Result (Option PublishOutcome × State)
unfolding publish_batch
publish fan message clock s = do
  done ← publish_batch fan (message ∷ []) clock s
  ok ((elim done.0 [ [] ↦ none | o ∷ os ↦ some o ]), done.1)
