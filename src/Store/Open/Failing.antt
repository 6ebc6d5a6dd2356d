-- ===== src/Store/Open/Failing.antt =====
-- What `open_with_config` of src/store.rs has done to a file when it fails, once it is connected.
use litefan.Prelude.{
  ℕ, ◌<◌, ◌≡◌, ◌≢◌, refl, ap, ◌∙◌, inl, inr, some, none, true, String, ltb_iff, Bool-cases,
  Option-cases,
}
use litefan.Error.{
  Error, Result, ok, err, incompatible_schema, unsupported_schema_version, Result-cases,
}
use litefan.Api.{pos}
use litefan.Schema.Catalog.{File, has_table, has_index, execute_all, sql, version}
use litefan.Store.Open.{prepare, is_compatible, newer_version, older_version, with_version}
use litefan.Store.Open.Versions.{IsPrepared, Extends, execute_all-Extends, prepare-IsPrepared}

-- The file keeps its rows, tables and indexes; only a success marks it with the version, and then it has
-- everything; a newer file is not touched.
pub record IsSpared (before : File) (done : Result (Unit {0})) (after : File) : Type 0 where
  pub rows : after.db ≡ before.db
  pub tables : (name : String) → has_table name before ≡ true → has_table name after ≡ true
  pub indexes : (name : String) → has_index name before ≡ true → has_index name after ≡ true
  pub unmarked : done ≢ ok tt → after.user_version ≡ before.user_version
  pub prepared : done ≡ ok tt → IsPrepared after
  pub newer :
      (found : ℕ)
      → before.user_version ≡ pos found
      → version < found
      → (done ≡ err (unsupported_schema_version found version)) × (after ≡ before)

newer_version-some : (found : ℕ) → version < found → newer_version (pos found) ≡ some found
newer_version-some found h = rw ((ltb_iff version found).1 h) refl

not_newer :
    (file : File) (found : ℕ)
    → newer_version file.user_version ≡ none
    → file.user_version ≡ pos found
    → version < found
    → ⊥
not_newer file found e v h = cc (e, ap newer_version v ∙ newer_version-some found h)

with_version_same :
    (file : File) (name : String)
    → (has_table name (with_version file) ≡ has_table name file)
      × (has_index name (with_version file) ≡ has_index name file)
      × ((with_version file).db ≡ file.db)
with_version_same file name = elim (Bool-cases (older_version file.user_version)) [
  | inl t ↦ rw t (refl, refl, refl)
  | inr f ↦ rw f (refl, refl, refl)
]

-- A run that stops has executed statements only.
stopped-IsSpared :
    (file after : File) (e : Error)
    → newer_version file.user_version ≡ none
    → Extends file after
    → IsSpared file (err e) after
stopped-IsSpared file after e old x = record {
  rows = x.rows;
  tables = x.tables;
  indexes = x.indexes;
  unmarked = λ h. x.same_version;
  prepared = λ h. cc h;
  newer = λ n v h. absurd (not_newer file n old v h);
}

newer-IsSpared :
    (file : File) (n : ℕ)
    → newer_version file.user_version ≡ some n
    → IsSpared file (err (unsupported_schema_version n version)) file
newer-IsSpared file n e = record {
  rows = refl;
  tables = λ t h. h;
  indexes = λ t h. h;
  unmarked = λ h. refl;
  prepared = λ h. cc h;
  newer = λ m v h.
      let q : newer_version file.user_version ≡ some m =
        ap newer_version v ∙ newer_version-some m h in
      let one : n ≡ m = cc (e, q) in
      (ap (λ (x : ℕ). err (unsupported_schema_version x version)) one, refl);
}

-- Whatever becomes of a connected file, it keeps its rows, tables and indexes; if the preparation
-- succeeds it has everything, if it fails its version is what it was, so that it never claims a schema
-- that it does not have; and a file with a newer version is refused with both versions, untouched.
pub prepare-IsSpared : (file : File) → IsSpared file (prepare file).0 (prepare file).1
unfolding prepare
prepare-IsSpared file = elim (Option-cases (newer_version file.user_version)) [
  | inr (n, e) ↦ rw (e, prepare) (newer-IsSpared file n e)
  | inl e ↦
      let created = (execute_all sql file).1 in
      let grown = execute_all-Extends sql file in
      elim (Result-cases (execute_all sql file).0) [
        | inr (x, p) ↦ rw (e, p, prepare) (stopped-IsSpared file created x e grown)
        | inl (u, p) ↦ elim (Bool-cases (is_compatible created)) [
          | inr f ↦
              rw (e, p, f, prepare) (stopped-IsSpared file created incompatible_schema e grown)
          | inl t ↦
              let done : (prepare file).0 ≡ ok tt = rw (e, p, t, prepare) refl in
              let good = (prepare-IsPrepared file done).0 in
              rw (e, p, t, prepare)
                (record {
                  rows = (with_version_same created "").2 ∙ grown.rows;
                  tables = λ n h. (with_version_same created n).0 ∙ grown.tables n h;
                  indexes = λ n h. (with_version_same created n).1 ∙ grown.indexes n h;
                  unmarked = λ h. absurd (h refl);
                  prepared = λ h. rw (e, p, t, prepare) at good;
                  newer = λ n v h. absurd (not_newer file n e v h);
                })
        ]
      ]
]
