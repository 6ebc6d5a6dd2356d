-- ===== src/Store/Retention/Refusals.antt =====
-- The errors of `delete_consumer` of src/store.rs.
use litefan.Prelude.{
  ℕ, ◌<◌, ◌≡◌, ◌≢◌, refl, inl, inr, Bool, false, String, none, arith, ltb, if◌then◌else◌, ◌==◌,
  text_eq, text_eq_iff, Among, exists_where, exists-delete_where, find_where, find_where-Among,
  find_where-none, Bool-cases, Option-cases, is_some, subst,
}
use litefan.Error.{
  Error, ok, err, Result-cases, consumer_not_found, consumer_not_draining, consumer_not_empty,
  consumer_has_archives,
}
use litefan.Api.{DeleteMode, drained_only, discard_outstanding, discard_all}
use litefan.Schema.{Database, ConsumerRow, ArchiveRow, has_consumer, delete_consumer_row}
use litefan.Store.{State}
use litefan.Store.Retention.{
  deletion_guard, discard_archives, delete_consumer, outstanding_of, archives_of,
}
use litefan.Store.Retention.Drained.{no_rows}

-- Why a deletion is refused, and the error that says so.
pub data Refused (name : String) (db : Database) : DeleteMode → Error → Type 0 where
  missing :
      {mode : DeleteMode}
      → ((c : ConsumerRow) → Among c db.consumers → c.name ≢ name)
      → Refused name db mode (consumer_not_found name)
  still_active :
      (c : ConsumerRow)
      → Among c db.consumers
      → c.name ≡ name
      → c.draining_at ≡ none
      → Refused name db drained_only (consumer_not_draining name)
  has_work :
      (c : ConsumerRow)
      → Among c db.consumers
      → c.name ≡ name
      → 0 < outstanding_of c db
      → Refused name db drained_only (consumer_not_empty name (outstanding_of c db))
  has_archives :
      {mode : DeleteMode} (c : ConsumerRow)
      → Among c db.consumers
      → c.name ≡ name
      → mode ≢ discard_all
      → 0 < archives_of c db
      → Refused name db mode (consumer_has_archives name (archives_of c db))

passed-zero :
    (name : String) (draining : Bool) (outstanding archived : ℕ) (mode : DeleteMode)
    → mode ≢ discard_all
    → deletion_guard name mode draining outstanding archived ≡ ok (tt {0})
    → archived ≡ 0
unfolding deletion_guard
passed-zero name draining outstanding archived drained_only other h = ground arith
passed-zero name draining outstanding archived discard_outstanding other h = ground arith
passed-zero name draining outstanding archived discard_all other h = absurd (other refl)

delete_consumer_row-total :
    (db : Database) (id : ℕ) (e : Error)
    → exists_where (λ (a : ArchiveRow). a.consumer_id == id) db.archives ≡ false
    → delete_consumer_row db id ≢ err e
unfolding delete_consumer_row
delete_consumer_row-total db id e none_left h = elim (Bool-cases (has_consumer db id)) [
  | inl t ↦ cc (rw (t, none_left) at h)
  | inr f ↦ cc (rw f at h)
]

module _ (name : String) (db : Database) (c : ConsumerRow) (n : Among c db.consumers)
    (named : c.name ≡ name) where
  archives-Refused :
      (mode : DeleteMode) (e : Error)
      → mode ≢ discard_all
      → (if ltb 0 (archives_of c db)
          then err (consumer_has_archives name (archives_of c db))
          else ok (tt {0}))
        ≡ err e
      → Refused name db mode e
  archives-Refused mode e other h = elim (Bool-cases (ltb 0 (archives_of c db))) [
    | inl t ↦
        let same : consumer_has_archives name (archives_of c db) ≡ e = cc (rw t at h) in
        subst (Refused name db mode) same (has_archives c n named other (ground (arith, t)))
    | inr f ↦ cc (rw f at h)
  ]

  guard-Refused :
      (mode : DeleteMode) (e : Error)
      → deletion_guard name mode (is_some c.draining_at) (outstanding_of c db) (archives_of c db)
        ≡ err e
      → Refused name db mode e
  unfolding deletion_guard
  guard-Refused drained_only e h = elim (Option-cases c.draining_at) [
    | inl active ↦
        let same : consumer_not_draining name ≡ e = cc (rw active at h) in
        subst (Refused name db drained_only) same (still_active c n named active)
    | inr (at, draining) ↦ elim (Bool-cases (ltb 0 (outstanding_of c db))) [
      | inl t ↦
          let same : consumer_not_empty name (outstanding_of c db) ≡ e =
            cc (rw (draining, t) at h) in
          subst (Refused name db drained_only) same (has_work c n named (ground (arith, t)))
      | inr f ↦ archives-Refused drained_only e (λ k. cc k) (rw (draining, f) at h)
    ]
  ]
  guard-Refused discard_outstanding e h = archives-Refused discard_outstanding e (λ k. cc k) h
  guard-Refused discard_all e h = cc h

  -- What passes the guards has no archive left, so that no foreign key refuses the deletion.
  guard-no_archives :
      (mode : DeleteMode)
      → deletion_guard name mode (is_some c.draining_at) (outstanding_of c db) (archives_of c db)
        ≡ ok (tt {0})
      → exists_where
          (λ (a : ArchiveRow). a.consumer_id == c.id)
          (discard_archives mode c.id db).archives
        ≡ false
  unfolding deletion_guard discard_archives
  guard-no_archives drained_only h =
      no_rows (λ (a : ArchiveRow). a.consumer_id == c.id) db.archives
        (passed-zero name (is_some c.draining_at) (outstanding_of c db) (archives_of c db)
          drained_only (λ k. cc k) h)
  guard-no_archives discard_outstanding h =
      no_rows (λ (a : ArchiveRow). a.consumer_id == c.id) db.archives
        (passed-zero name (is_some c.draining_at) (outstanding_of c db) (archives_of c db)
          discard_outstanding (λ k. cc k) h)
  guard-no_archives discard_all h =
      exists-delete_where (λ (a : ArchiveRow). a.consumer_id == c.id) db.archives

-- If `delete_consumer` fails, the name has no consumer, or one that the mode protects, and the error
-- says which: a foreign key never refuses the deletion.
pub delete_consumer-Refused :
    (name : String) (mode : DeleteMode) (s : State) (e : Error)
    → delete_consumer name mode s ≡ err e
    → Refused name s.db mode e
unfolding delete_consumer
delete_consumer-Refused name mode s e h =
    elim (Option-cases (find_where (λ (c : ConsumerRow). text_eq c.name name) s.db.consumers)) [
      | inl gone ↦
          let same : consumer_not_found name ≡ e = cc (rw gone at h) in
          subst (Refused name s.db mode) same (
            missing (λ c n named. cc (
              find_where-none (λ (x : ConsumerRow). text_eq x.name name) c s.db.consumers gone n,
              (text_eq_iff c.name name).1 named,
            )))
      | inr (c, found) ↦
          let at =
            find_where-Among (λ (x : ConsumerRow). text_eq x.name name) s.db.consumers c found in
          let named : c.name ≡ name = (text_eq_iff c.name name).0 at.1 in
          elim (Result-cases (
            deletion_guard name mode (is_some c.draining_at) (outstanding_of c s.db)
              (archives_of c s.db))) [
                | inr (x, q) ↦
                    let same : x ≡ e = cc (rw (found, q) at h) in
                    subst (Refused name s.db mode) same
                      (guard-Refused name s.db c at.0 named mode x q)
                | inl (u, q) ↦
                    elim (Result-cases
                      (delete_consumer_row (discard_archives mode c.id s.db) c.id)) [
                        | inl (db', p) ↦ cc (rw (found, q, p) at h)
                        | inr (x, p) ↦ absurd (
                            delete_consumer_row-total (discard_archives mode c.id s.db) c.id x
                              (guard-no_archives name s.db c at.0 named mode q) p)
                      ]
              ]
    ]
