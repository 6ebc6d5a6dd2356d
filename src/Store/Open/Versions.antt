-- ===== src/Store/Open/Versions.antt =====
-- What opening a store does to its file.
use litefan.Prelude.{
  ℕ, ◌≡◌, refl, ap, ◌∙◌, inl, inr, Bool, true, false, none, List, [], ◌∷◌, ◌++◌, arith, String,
  text_eq, text_eq_iff, if◌then◌else◌, exists_where, exists_where-append, Bool-cases, Option-cases,
}
use litefan.Error.{Result, ok, err, incompatible_schema, Result-cases}
use litefan.Api.{ℤ, pos, negsuc}
use litefan.Schema.Catalog.{
  Table, File, Statement, create_table_if_not_exists, create_index_if_not_exists, has_table,
  has_index, can_read, execute, execute_all, sql,
}
use litefan.Store.Open.{prepare, is_compatible, newer_version, older_version, with_version}

-- The object that a statement creates is there.
abbrev pub Created : Statement → File → Type 0
Created (create_table_if_not_exists name columns) file = has_table name file ≡ true
Created (create_index_if_not_exists name table columns) file = has_index name file ≡ true

abbrev pub AllCreated : List Statement → File → Type 0
AllCreated [] file = Unit
AllCreated (s ∷ ss) file = Created s file × AllCreated ss file

-- Statements add tables and indexes, and touch nothing else.
pub record Extends (before after : File) : Type 0 where
  pub tables : (name : String) → has_table name before ≡ true → has_table name after ≡ true
  pub indexes : (name : String) → has_index name before ≡ true → has_index name after ≡ true
  pub rows : after.db ≡ before.db
  pub same_version : after.user_version ≡ before.user_version

Extends-refl : (file : File) → Extends file file
Extends-refl file = record {
  tables = λ n h. h;
  indexes = λ n h. h;
  rows = refl;
  same_version = refl;
}

Extends-trans : (a b c : File) → Extends a b → Extends b c → Extends a c
Extends-trans a b c p q = record {
  tables = λ n h. q.tables n (p.tables n h);
  indexes = λ n h. q.indexes n (p.indexes n h);
  rows = q.rows ∙ p.rows;
  same_version = q.same_version ∙ p.same_version;
}

Created-Extends : (s : Statement) (a b : File) → Extends a b → Created s a → Created s b
Created-Extends (create_table_if_not_exists name columns) a b e h = e.tables name h
Created-Extends (create_index_if_not_exists name table columns) a b e h = e.indexes name h

exists-left {ℓ} :
    {A : Type ℓ} (p : A → Bool) (xs ys : List A)
    → exists_where p xs ≡ true
    → exists_where p (xs ++ ys) ≡ true
exists-left p xs ys h = exists_where-append p xs ys ∙ rw h refl

exists-new {ℓ} :
    {A : Type ℓ} (p : A → Bool) (xs : List A) (y : A)
    → p y ≡ true
    → exists_where p (xs ++ y ∷ []) ≡ true
exists-new p [] y h = rw h refl
exists-new p (x ∷ xs) y h = ground (arith, exists-new p xs y h)

execute-Extends : (s : Statement) (file : File) → Extends file (execute s file).1
unfolding execute
execute-Extends (create_table_if_not_exists name columns) file =
    elim (Bool-cases (has_table name file)) [
      | inl t ↦ rw t (Extends-refl file)
      | inr f ↦ rw f (record {
        tables = λ n h. exists-left (λ (t : Table). text_eq n t.name) file.tables _ h;
        indexes = λ n h. h;
        rows = refl;
        same_version = refl;
      })
    ]
execute-Extends (create_index_if_not_exists name table columns) file =
    elim (Bool-cases (has_index name file)) [
      | inl t ↦ rw t (Extends-refl file)
      | inr f ↦ elim (Bool-cases (can_read table columns file)) [
        | inl r ↦
            rw (f, r)
              (record {
                tables = λ n h. h;
                indexes = λ n h. exists-left (text_eq n) file.indexes _ h;
                rows = refl;
                same_version = refl;
              })
        | inr r ↦ rw (f, r) (Extends-refl file)
      ]
    ]

execute-Created :
    (s : Statement) (file : File) → (execute s file).0 ≡ ok tt → Created s (execute s file).1
unfolding execute
execute-Created (create_table_if_not_exists name columns) file h =
    elim (Bool-cases (has_table name file)) [
      | inl t ↦ rw t t
      | inr f ↦ rw f (
          exists-new (λ (t : Table). text_eq name t.name) file.tables
            (record { name = name; columns = columns }) ((text_eq_iff name name).1 refl))
    ]
execute-Created (create_index_if_not_exists name table columns) file h =
    elim (Bool-cases (has_index name file)) [
      | inl t ↦ rw t t
      | inr f ↦ elim (Bool-cases (can_read table columns file)) [
        | inl r ↦
            rw (f, r) (exists-new (text_eq name) file.indexes name ((text_eq_iff name name).1 refl))
        | inr r ↦ cc (rw (f, r) at h)
      ]
    ]

execute_noop :
    (s : Statement) (file : File)
    → Created s file
    → ◌≡◌ {A = Result (Unit {0}) × File} (execute s file) (ok tt, file)
unfolding execute
execute_noop (create_table_if_not_exists name columns) file h = rw h refl
execute_noop (create_index_if_not_exists name table columns) file h = rw h refl

pub execute_all-Extends : (ss : List Statement) (file : File) → Extends file (execute_all ss file).1
unfolding execute_all
execute_all-Extends [] file = Extends-refl file
execute_all-Extends (s ∷ ss) file = elim (Result-cases (execute s file).0) [
  | inr (e, p) ↦ rw (p, execute_all) (execute-Extends s file)
  | inl (u, p) ↦
      rw (p, execute_all)
        (Extends-trans file (execute s file).1 (execute_all ss (execute s file).1).1
          (execute-Extends s file) (execute_all-Extends ss (execute s file).1))
]

execute_all-Created :
    (ss : List Statement) (file : File)
    → (execute_all ss file).0 ≡ ok tt
    → AllCreated ss (execute_all ss file).1
unfolding execute_all
execute_all-Created [] file h = tt
execute_all-Created (s ∷ ss) file h = elim (Result-cases (execute s file).0) [
  | inr (e, p) ↦ cc (rw (p, execute_all) at h)
  | inl (u, p) ↦
      let rest = rw (p, execute_all) at h in
      rw (p, execute_all)
        (
          Created-Extends s (execute s file).1 (execute_all ss (execute s file).1).1
              (execute_all-Extends ss (execute s file).1) (execute-Created s file p),
          execute_all-Created ss (execute s file).1 rest,
        )
]

execute_all_noop :
    (ss : List Statement) (file : File)
    → AllCreated ss file
    → ◌≡◌ {A = Result (Unit {0}) × File} (execute_all ss file) (ok tt, file)
unfolding execute_all
execute_all_noop [] file h = refl
execute_all_noop (s ∷ ss) file h =
    ap
      (λ (r : Result (Unit {0}) × File). (elim r.0 [
        | err e ↦ (err e, r.1)
        | ok done ↦ execute_all ss r.1
      ]))
      (execute_noop s file h.0)
    ∙ execute_all_noop ss file h.1

not_older : (v : ℤ) → newer_version v ≡ none → older_version v ≡ false → (n : ℕ) × (v ≡ pos n)
not_older (pos n) h k = (n, refl)
not_older (negsuc n) h k = cc k

Created-with_version :
    (s : Statement) (file : File) → Created s file → Created s (with_version file)
Created-with_version (create_table_if_not_exists name columns) file h =
    elim (Bool-cases (older_version file.user_version)) [ inl t ↦ rw t h | inr f ↦ rw f h ]
Created-with_version (create_index_if_not_exists name table columns) file h =
    elim (Bool-cases (older_version file.user_version)) [ inl t ↦ rw t h | inr f ↦ rw f h ]

AllCreated-with_version :
    (ss : List Statement) (file : File) → AllCreated ss file → AllCreated ss (with_version file)
AllCreated-with_version [] file h = tt
AllCreated-with_version (s ∷ ss) file h =
    (Created-with_version s file h.0, AllCreated-with_version ss file h.1)

compatible-with_version : (file : File) → is_compatible (with_version file) ≡ is_compatible file
unfolding is_compatible
compatible-with_version file = elim (Bool-cases (older_version file.user_version)) [
  | inl t ↦ rw t refl
  | inr f ↦ rw f refl
]

with_version_rows : (file : File) → (with_version file).db ≡ file.db
with_version_rows file = elim (Bool-cases (older_version file.user_version)) [
  | inl t ↦ rw t refl
  | inr f ↦ rw f refl
]

current_version :
    (file : File)
    → newer_version file.user_version ≡ none
    → (newer_version (with_version file).user_version ≡ none)
      × (older_version (with_version file).user_version ≡ false)
current_version file h = elim (Bool-cases (older_version file.user_version)) [
  | inl t ↦ rw t (refl, refl)
  | inr f ↦ rw f (h, f)
]

-- A file that has everything, and the supported version.
pub record IsPrepared (file : File) : Type 0 where
  pub created : AllCreated sql file
  pub compatible : is_compatible file ≡ true
  pub not_newer : newer_version file.user_version ≡ none
  pub current : older_version file.user_version ≡ false

-- A preparation that succeeds leaves the rows alone, and a file that has everything.
pub prepare-IsPrepared :
    (file : File)
    → (prepare file).0 ≡ ok tt
    → IsPrepared (prepare file).1 × ((prepare file).1.db ≡ file.db)
unfolding prepare
prepare-IsPrepared file h = elim (Option-cases (newer_version file.user_version)) [
  | inr (n, e) ↦ cc (rw (e, prepare) at h)
  | inl e ↦
      let created = (execute_all sql file).1 in
      let grown = execute_all-Extends sql file in
      elim (Result-cases (execute_all sql file).0) [
        | inr (x, p) ↦ cc (rw (e, p, prepare) at h)
        | inl (u, p) ↦ elim (Bool-cases (is_compatible created)) [
          | inr f ↦ cc (rw (e, p, f, prepare) at h)
          | inl t ↦
              let version = current_version created (ap newer_version grown.same_version ∙ e) in
              rw (e, p, t, prepare)
                (
                  record {
                    created = AllCreated-with_version sql created (execute_all-Created sql file p);
                    compatible = compatible-with_version created ∙ t;
                    not_newer = version.0;
                    current = version.1;
                  },
                  with_version_rows created ∙ grown.rows,
                )
        ]
      ]
]

-- What follows the statements of the schema.
abbrev finish : Result (Unit {0}) × File → Result (Unit {0}) × File
finish created = elim created.0 [
  | err e ↦ (err e, created.1)
  | ok done ↦
      if is_compatible created.1
      then (ok tt, with_version created.1)
      else (err incompatible_schema, created.1)
]

finish_done :
    (file : File)
    → IsPrepared file
    → ◌≡◌ {A = Result (Unit {0}) × File} (finish (ok tt, file)) (ok tt, file)
finish_done file good = rw (good.compatible, good.current) refl

-- To prepare a file again changes nothing.
pub prepare_again :
    (file : File)
    → IsPrepared file
    → ◌≡◌ {A = Result (Unit {0}) × File} (prepare file) (ok tt, file)
unfolding prepare
prepare_again file good =
    rw (good.not_newer, prepare)
      (ap finish (execute_all_noop sql file good.created) ∙ finish_done file good)
