-- ===== src/Store/Publish/Transaction.antt =====
-- `publish_batch` of src/store.rs: the transaction of a batch with idempotency keys is the same as
-- publishing the messages one by one, each key at most once.
use litefan.Prelude.{
  ℕ, ◌+◌, ◌/◌, ◌≡◌, refl, ap, ◌∙◌, List, [], ◌++◌, map, length, Among-select_inv, Distinct-select,
  chunks,
}
use litefan.Error.{Result, ok, ◌>>=◌}
use litefan.Api.{Publish, PublishOutcome}
use litefan.Schema.{Database, IdempotencyRow}
use litefan.Schema.WellFormed.{WellFormed, IsLedger}
use litefan.Storage.{ReturnsRows, max_sql_variables, insert_message_rows, purge_expired_idempotency}
use litefan.Storage.Appends.{next_rows, appended, insert_message_rows_lem, appended-WellFormed}
use litefan.Store.{LiteFan}
use litefan.Store.Publish.{
  Key, Ledger, Scheduled, schedule, published_ids, updates, fill_chunks, fill_ledger, outcomes,
  Published, keyed_transaction,
}
use litefan.Store.Publish.OneByOne.{
  Known, known_of, outcomes_of, published_of, known_after, learned_of, positions_of,
}
use litefan.Store.Publish.Keys.{Among-unique_keys}
use litefan.Store.Publish.Plan.{scheduled_message, schedule_lem}
use litefan.Store.Publish.Seed.{row_key}
use litefan.Store.Publish.Answers.{outcomes_lem}
use litefan.Store.Publish.Table.{
  before, news, open_table, seed, filled_table, IsAsked, seed-Agrees, filled_ledger-eq,
  filled_table-eq, filled_table-IsLedger,
}

purge-IsLedger :
    (db : Database) (now : ℕ)
    → WellFormed db
    → IsLedger (purge_expired_idempotency db now).idempotency db.message_seq
unfolding purge_expired_idempotency
purge-IsLedger db now w = record {
  distinct = Distinct-select row_key _ db.idempotency w.ledger.distinct;
  complete = λ k n. w.ledger.complete k (Among-select_inv _ k db.idempotency n).0;
}

with_ledger :
    (db : Database) (rows : List IdempotencyRow)
    → WellFormed db
    → IsLedger rows db.message_seq
    → WellFormed (record db { idempotency = rows })
with_ledger db rows w l = record {
  log = w.log;
  ledger = l;
  registry = w.registry;
  deliveries = w.deliveries;
  archives = w.archives;
  archive_ids = w.archive_ids;
  archives_bounded = w.archives_bounded;
  disjoint = w.disjoint;
}

-- The transaction's result, from the IDs by position, the updates and the messages published.
module _ (fan : LiteFan) (ms : List Publish) (published_at expires_at : ℕ) (db : Database) where
  abbrev purged : Database
  purged = purge_expired_idempotency db published_at

  abbrev rows_of : List IdempotencyRow
  rows_of = purged.idempotency

  abbrev table : List IdempotencyRow
  table = open_table expires_at db.message_seq rows_of ms

  abbrev ledger : Ledger
  ledger = seed expires_at db.message_seq rows_of ms

  abbrev close : List (Key × ℕ) → List Publish → Database → List PublishOutcome → Result Published
  close news published inserted os = ok (record {
    outcomes = os;
    to_publish = published;
    db = record inserted { idempotency = fill_chunks table (chunks (max_sql_variables / 2) news) };
  })

  abbrev after_insert : List Scheduled → List ℕ × Database → Result Published
  after_insert plan made =
      outcomes (published_ids plan made.0) (fill_ledger (updates plan made.0) ledger) 0 ms
      >>= close (updates plan made.0) (map scheduled_message plan) made.1

  abbrev after_plan : List (ℕ × ℕ) → List (Key × ℕ) → List Publish → Result Published
  after_plan ids news published =
      outcomes ids (fill_ledger news ledger) 0 ms
      >>= close news published (appended purged published published_at)

  keyed_transaction-eq :
      keyed_transaction fan ms published_at expires_at db
      ≡ after_insert (schedule ledger 0 [] ms) (
          insert_message_rows fan.pool purged
            (map scheduled_message (schedule ledger 0 [] ms))
            published_at)
  unfolding keyed_transaction
  keyed_transaction-eq = refl

  abbrev known : Known
  known = before expires_at db.message_seq rows_of ms

  abbrev publishes : List Publish
  publishes = published_of known db.message_seq ms

  abbrev learns : List (Key × ℕ)
  learns = learned_of known db.message_seq ms

  inserted_lem :
      ReturnsRows fan.pool
      → keyed_transaction fan ms published_at expires_at db
        ≡ after_plan (positions_of known 0 db.message_seq ms) learns publishes
  unfolding purge_expired_idempotency
  inserted_lem lawful =
      let plan = schedule ledger 0 [] ms in
      let (a, b, c) =
        schedule_lem (IsAsked expires_at db.message_seq rows_of ms) ledger 0 db.message_seq [] known
          ms (seed-Agrees expires_at db.message_seq rows_of ms)
          (λ m n k e. Among-unique_keys ms m k n e) in
      keyed_transaction-eq
      ∙ ap (after_insert plan)
          (insert_message_rows_lem fan.pool lawful (map scheduled_message plan) published_at purged)
      ∙ λ i. after_plan (b i) (c i) (a i)

  answered_lem :
      ReturnsRows fan.pool
      → ◌≡◌ {A = Result Published} (keyed_transaction fan ms published_at expires_at db) (
          close learns publishes
            (appended purged publishes published_at)
            (outcomes_of known db.message_seq ms))
  answered_lem lawful =
      inserted_lem lawful
      ∙ ap
          (λ (r : Result (List PublishOutcome)).
            r >>= close learns publishes (appended purged publishes published_at))
          (outcomes_lem (IsAsked expires_at db.message_seq rows_of ms)
            (positions_of known 0 db.message_seq ms) (fill_ledger learns ledger) 0 db.message_seq
            known ms (λ j h. refl) (filled_ledger-eq expires_at db.message_seq rows_of ms)
            (λ m n k e. Among-unique_keys ms m k n e))

-- What the ledger knows once expired keys are dropped.
abbrev pub known_at : Database → ℕ → Known
known_at db now = known_of (purge_expired_idempotency db now).idempotency

-- What a keyed batch does to the database, by publishing its messages one by one.
pub record IsPublished (db : Database) (published_at : ℕ) (ms : List Publish)
    (outcomes : List PublishOutcome) (db' : Database) : Type 0 where
  pub answers : outcomes ≡ outcomes_of (known_at db published_at) db.message_seq ms
  pub messages :
      db'.messages
      ≡ db.messages
        ++ next_rows db.message_seq published_at
            (published_of (known_at db published_at) db.message_seq ms)
  pub seq :
      db'.message_seq
      ≡ db.message_seq + length (published_of (known_at db published_at) db.message_seq ms)
  pub knows :
      (k : Key)
      → known_of db'.idempotency k ≡ known_after (known_at db published_at) db.message_seq ms k
  pub well_formed : WellFormed db'

-- The transaction of a keyed batch succeeds, and does what publishing one by one does.
pub keyed_transaction_lem :
    (fan : LiteFan) (ms : List Publish) (published_at expires_at : ℕ) (db : Database)
    → ReturnsRows fan.pool
    → WellFormed db
    → (done : Published) × (keyed_transaction fan ms published_at expires_at db ≡ ok done)
      × (done.to_publish ≡ published_of (known_at db published_at) db.message_seq ms)
      × IsPublished db published_at ms done.outcomes done.db
unfolding purge_expired_idempotency
keyed_transaction_lem fan ms published_at expires_at db lawful w =
    let rows = (purge_expired_idempotency db published_at).idempotency in
    let l = purge-IsLedger db published_at w in
    (
      _,
      answered_lem fan ms published_at expires_at db lawful,
      refl,
      record {
        answers = refl;
        messages = refl;
        seq = refl;
        knows = filled_table-eq expires_at db.message_seq rows ms;
        well_formed =
            with_ledger
              (appended (purge_expired_idempotency db published_at)
                (published_of (known_of rows) db.message_seq ms) published_at)
              (filled_table expires_at db.message_seq rows ms)
              (appended-WellFormed (purge_expired_idempotency db published_at)
                (published_of (known_of rows) db.message_seq ms) published_at
                (with_ledger db rows w l))
              (filled_table-IsLedger expires_at db.message_seq rows ms l);
      },
    )
