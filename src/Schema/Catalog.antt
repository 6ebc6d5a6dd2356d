-- ===== src/Schema/Catalog.antt =====
-- src/schema.rs, the statements of the schema as they act on a database file: its tables with their
-- columns, its indexes, and the number that SQLite keeps as user_version. The rows stand beside them.
use litefan.Prelude.{
  ℕ, String, Bool, true, ◌&&◌, List, [], ◌∷◌, ◌++◌, text_eq, if◌then◌else◌, exists_where,
}
use litefan.Error.{Result, ok, err, sqlx, no_such_column}
use litefan.Api.{ℤ}
use litefan.Schema.{Database}

pub record Table : Type 0 where
  pub name : String
  pub columns : List String

pub record File : Type 0 where
  pub user_version : ℤ
  pub tables : List Table
  pub indexes : List String
  pub db : Database

pub data Statement : Type 0 where
  create_table_if_not_exists : String → List String → Statement
  create_index_if_not_exists : String → String → List String → Statement

abbrev pub has_table : String → File → Bool
has_table name file = exists_where (λ (t : Table). text_eq name t.name) file.tables

abbrev pub has_index : String → File → Bool
has_index name file = exists_where (text_eq name) file.indexes

abbrev pub has_columns : List String → Table → Bool
has_columns [] t = true
has_columns (c ∷ cs) t = exists_where (text_eq c) t.columns && has_columns cs t

-- The table has the columns: whether a statement that names them can be prepared.
abbrev pub can_read : String → List String → File → Bool
can_read name columns file =
    exists_where (λ (t : Table). text_eq name t.name && has_columns columns t) file.tables

-- A statement that fails leaves the file as it was.
unfoldable pub execute : Statement → File → Result (Unit {0}) × File
execute (create_table_if_not_exists name columns) file =
    if has_table name file then (ok tt, file) else (
      ok tt,
      record file { tables = file.tables ++ record { name = name; columns = columns } ∷ [] },
    )
execute (create_index_if_not_exists name table columns) file =
    if has_index name file
    then (ok tt, file)
    else if can_read table columns file
    then (ok tt, record file { indexes = file.indexes ++ name ∷ [] })
    else (err (sqlx no_such_column), file)

-- One after the other, up to the first that fails; those before it stay.
unfoldable pub execute_all : List Statement → File → Result (Unit {0}) × File
unfolding execute
execute_all [] file = (ok tt, file)
execute_all (statement ∷ rest) file =
    let first = execute statement file in
    let later = execute_all rest first.1 in
    elim first.0 [ err e ↦ (err e, first.1) | ok done ↦ later ]

abbrev pub version : ℕ
version = 2

abbrev pub sql : List Statement
sql =
    create_table_if_not_exists "litefan_messages" ("id" ∷ "topic" ∷ "body" ∷ "published_at" ∷ [])
    ∷ create_index_if_not_exists "litefan_messages_topic" "litefan_messages" ("topic" ∷ "id" ∷ [])
    ∷ create_table_if_not_exists "litefan_idempotency" ("key" ∷ "message_id" ∷ "expires_at" ∷ [])
    ∷ create_index_if_not_exists "litefan_idempotency_expiry" "litefan_idempotency"
        ("expires_at" ∷ [])
    ∷ create_table_if_not_exists "litefan_consumers" (
        "id" ∷ "name" ∷ "topic_filter" ∷ "created_at" ∷ "draining_at" ∷ "scan_cursor"
        ∷ "drain_cursor" ∷ [])
    ∷ create_table_if_not_exists "litefan_deliveries"
        ("consumer_id" ∷ "message_id" ∷ "visible_at" ∷ "generation" ∷ "delivery_count" ∷ [])
    ∷ create_index_if_not_exists "litefan_deliveries_visible" "litefan_deliveries"
        ("consumer_id" ∷ "visible_at" ∷ "message_id" ∷ [])
    ∷ create_index_if_not_exists "litefan_deliveries_message" "litefan_deliveries"
        ("message_id" ∷ [])
    ∷ create_table_if_not_exists "litefan_archived_deliveries" (
        "id" ∷ "consumer_id" ∷ "message_id" ∷ "archived_at" ∷ "delivery_count" ∷ "last_generation"
        ∷ "detail" ∷ [])
    ∷ create_index_if_not_exists "litefan_archives_consumer" "litefan_archived_deliveries"
        ("consumer_id" ∷ "archived_at" ∷ "id" ∷ [])
    ∷ create_index_if_not_exists "litefan_archives_message" "litefan_archived_deliveries"
        ("message_id" ∷ [])
    ∷ []
