-- ===== src/Store/Publish/Again.antt =====
-- `publish_batch` of src/store.rs, for a keyed batch that is sent again before its keys expire.
use litefan.Prelude.{
  ℕ, ◌+◌, ◌≤◌, ◌≡◌, refl, sym, ap, ◌∙◌, inl, inr, true, false, not, Option, none, some, List, [],
  ◌∷◌, ◌++◌, map, arith, leb, delete_where-none, is_some, length, Among, exists_where, Option-cases,
}
use mathlib.Core.List.{append-nil}
use litefan.Error.Ensures.{Ensures-ok}
use litefan.Error.{ok}
use litefan.Api.{Publish, PublishOutcome}
use litefan.Time.{SystemTime, now_ms, checked_add}
use litefan.Schema.{Database, IdempotencyRow}
use litefan.Schema.WellFormed.{WellFormed}
use litefan.Storage.{ReturnsRows, purge_expired_idempotency}
use litefan.Storage.Appends.{next_rows}
use litefan.Store.{State, LiteFan}
use litefan.Store.Publish.{Key, has_no_key, publish_batch}
use litefan.Store.Publish.OneByOne.{Known, known_of, outcomes_of, published_of, known_after}
use litefan.Api.{published, duplicate}
use litefan.Store.Publish.OneByOne.{known_key, learn}
use litefan.Store.Publish.Learned.{known_after-known, learn_self}
use litefan.Store.Publish.Transaction.{IsPublished, known_at}
use litefan.Store.Publish.Keyed.{publish_batch_keyed}

-- A key that is known stays known, and a batch whose keys are known is all duplicates.
abbrev pub as_duplicate : PublishOutcome → PublishOutcome
as_duplicate (published id) = duplicate id
as_duplicate (duplicate id) = duplicate id

known_key-learn :
    (known : Known) (key : Option Key) (id : ℕ)
    → is_some key ≡ true
    → known_key (learn known key id) key ≡ some id
known_key-learn known none id h = cc h
known_key-learn known (some k) id h = learn_self known k id

known_key-known_after :
    (known : Known) (seq : ℕ) (ms : List Publish) (key : Option Key) (id : ℕ)
    → known_key known key ≡ some id
    → known_key (known_after known seq ms) key ≡ some id
known_key-known_after known seq ms none id e = cc e
known_key-known_after known seq ms (some k) id e = known_after-known known seq ms k id e

known_key-eq :
    (known later : Known) (key : Option Key)
    → ((k : Key) → later k ≡ known k)
    → known_key later key ≡ known_key known key
known_key-eq known later none h = refl
known_key-eq known later (some k) h = h k

republished_of :
    (known later : Known) (seq seq' : ℕ) (ms : List Publish)
    → ((m : Publish) → Among m ms → is_some m.idempotency_key ≡ true)
    → ((k : Key) → later k ≡ known_after known seq ms k)
    → (outcomes_of later seq' ms ≡ map as_duplicate (outcomes_of known seq ms))
      × (published_of later seq' ms ≡ [])
unfolding outcomes_of published_of known_after
republished_of known later seq seq' [] keyed h = (refl, refl)
republished_of known later seq seq' (m ∷ ms) keyed h =
    elim (Option-cases (known_key known m.idempotency_key)) [
      | inr (id, e) ↦
          let same : (k : Key) → later k ≡ known_after known seq ms k =
            λ k. h k ∙ rw (e, known_after) refl in
          let q : known_key later m.idempotency_key ≡ some id =
            known_key-eq (known_after known seq ms) later m.idempotency_key same
            ∙ known_key-known_after known seq ms m.idempotency_key id e in
          let rest = republished_of known later seq seq' ms (λ x n. keyed x (inr n)) same in
          rw (e, q, outcomes_of, published_of) (ap (◌∷◌ (duplicate id)) rest.0, rest.1)
      | inl e ↦
          let next = learn known m.idempotency_key (seq + 1) in
          let same : (k : Key) → later k ≡ known_after next (seq + 1) ms k =
            λ k. h k ∙ rw (e, known_after) refl in
          let q : known_key later m.idempotency_key ≡ some (seq + 1) =
            known_key-eq (known_after next (seq + 1) ms) later m.idempotency_key same
            ∙ known_key-known_after next (seq + 1) ms m.idempotency_key (seq + 1)
                (known_key-learn known m.idempotency_key (seq + 1) (keyed m (inl refl))) in
          let rest = republished_of next later (seq + 1) seq' ms (λ x n. keyed x (inr n)) same in
          rw (e, q, outcomes_of, published_of) (ap (◌∷◌ (duplicate (seq + 1))) rest.0, rest.1)
    ]

known_at-unexpired :
    (db : Database) (now : ℕ)
    → exists_where (λ (r : IdempotencyRow). leb r.expires_at now) db.idempotency ≡ false
    → (k : Key) → known_at db now k ≡ known_of db.idempotency k
unfolding purge_expired_idempotency
known_at-unexpired db now h k =
    ap (λ (rows : List IdempotencyRow). known_of rows k)
      (delete_where-none (λ (r : IdempotencyRow). leb r.expires_at now) db.idempotency h)

keyed_test :
    (ms : List Publish)
    → exists_where has_no_key ms ≡ false
    → (m : Publish) → Among m ms
    → is_some m.idempotency_key ≡ true
keyed_test [] h m n = elim n [ ]
keyed_test (p ∷ ms) h m (inl e) = ap (λ (x : Publish). is_some x.idempotency_key) e ∙ ground arith
keyed_test (p ∷ ms) h m (inr n) = keyed_test ms (ground arith) m n

-- If RETURNING gives each row once, the database is well-formed, and a batch within the limit whose
-- messages all have keys is published, with clocks and an idempotency window that the source can
-- represent, then to publish the same batch again while none of the ledger's keys has expired
-- succeeds: each message is answered as a duplicate of the message that the first answer named, and
-- the log is unchanged.
pub publish_batch_again :
    (fan : LiteFan) (m : Publish) (ms : List Publish) (clock clock' : SystemTime)
    (published_at expires_at again_at again_expires_at : ℕ) (s s' : State)
    (os : List PublishOutcome)
    → ReturnsRows fan.pool
    → WellFormed s.db
    → now_ms clock ≡ ok published_at
    → checked_add published_at fan.idempotency_window_ms ≡ ok expires_at
    → now_ms clock' ≡ ok again_at
    → checked_add again_at fan.idempotency_window_ms ≡ ok again_expires_at
    → length (m ∷ ms) ≤ fan.max_batch_size
    → exists_where has_no_key (m ∷ ms) ≡ false
    → publish_batch fan (m ∷ ms) clock s ≡ ok (os, s')
    → exists_where (λ (r : IdempotencyRow). leb r.expires_at again_at) s'.db.idempotency ≡ false
    → (s'' : State) × (publish_batch fan (m ∷ ms) clock' s' ≡ ok (map as_duplicate os, s''))
      × (s''.db.messages ≡ s'.db.messages)
publish_batch_again fan m ms clock clock' published_at expires_at again_at again_expires_at s s' os
      lawful w e window e' window' room keyed run unexpired =
    let some_key : exists_where (λ (p : Publish). not (has_no_key p)) (m ∷ ms) ≡ true =
      ground arith in
    let (os1, s1, run1, good1) =
      publish_batch_keyed fan m ms clock published_at expires_at s lawful w e window room
        some_key in
    let first : IsPublished s.db published_at (m ∷ ms) os s'.db =
      Ensures-ok
        (λ (r : List PublishOutcome × State). IsPublished s.db published_at (m ∷ ms) r.0 r.1.db)
        (os1, s1) good1 (os, s') (sym run1 ∙ run) in
    let (os2, s2, run2, good2) =
      publish_batch_keyed fan m ms clock' again_at again_expires_at s' lawful first.well_formed e'
        window' room some_key in
    let (answers, nothing) =
      republished_of (known_at s.db published_at) (known_at s'.db again_at) s.db.message_seq
        s'.db.message_seq (m ∷ ms) (keyed_test (m ∷ ms) keyed)
        (λ k. known_at-unexpired s'.db again_at unexpired k ∙ first.knows k) in
    (
      s2,
      run2
          ∙ ap (λ (x : List PublishOutcome). ok (x, s2))
              (good2.answers ∙ answers ∙ ap (map as_duplicate) (sym first.answers)),
      good2.messages
          ∙ ap (λ (x : List Publish). s'.db.messages ++ next_rows s'.db.message_seq again_at x)
              nothing
          ∙ append-nil s'.db.messages,
    )
