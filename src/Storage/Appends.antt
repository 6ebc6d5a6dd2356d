-- ===== src/Storage/Appends.antt =====
-- `insert_message_rows` of src/storage.rs appends to the log, and gives the IDs of the new rows in the
-- order of the batch, in whatever order SQLite returned them.
use litefan.Prelude.{
  ℕ, ◌+◌, ◌≤◌, ◌<◌, ◌≡◌, sym, ap, ◌∙◌, subst, inl, inr, List, [], ◌∷◌, ◌++◌, arith, Among,
  Among-append, Among-append_left, Ascending, Ascending-append, Ascending-Distinct, Distinct-Permᴰ,
  Permᴰ, concat, concat-chunks, chunks, sort_by-Permᴰ, sort_by_id, length, length-append,
}
use mathlib.Core.List.Permᴰ
use mathlib.Core.List.{append_assoc, append-nil}
use litefan.Api.{Message, Publish}
use litefan.Schema.{Database}
use litefan.Schema.WellFormed.{WellFormed, message_key}
use litefan.Schema.Work.{IsWork-messages}
use litefan.Storage.{
  Pool, ReturnsRows, message_row, insert_values, insert_chunks, insert_message_rows,
  publishes_per_chunk,
}

-- The next IDs, one for each message of a batch.
abbrev pub next_ids : ℕ → List Publish → List ℕ
next_ids seq [] = []
next_ids seq (p ∷ ps) = (seq + 1) ∷ next_ids (seq + 1) ps

abbrev pub next_rows : ℕ → ℕ → List Publish → List Message
next_rows seq published_at [] = []
next_rows seq published_at (p ∷ ps) =
    message_row (seq + 1) published_at p ∷ next_rows (seq + 1) published_at ps

abbrev pub appended : Database → List Publish → ℕ → Database
appended db ps published_at = record db {
  messages = db.messages ++ next_rows db.message_seq published_at ps;
  message_seq = db.message_seq + length ps;
}

insert_values_lem :
    (ps : List Publish) (published_at : ℕ) (db : Database)
    → ◌≡◌ {A = List ℕ × Database}
        (insert_values db ps published_at)
        (next_ids db.message_seq ps, appended db ps published_at)
unfolding insert_values
insert_values_lem [] published_at db = ground (arith, append-nil db.messages)
insert_values_lem (p ∷ ps) published_at db =
    let first = appended db (p ∷ []) published_at in
    ground (
      arith,
      insert_values_lem ps published_at first,
      append_assoc db.messages (message_row (db.message_seq + 1) published_at p ∷ [])
          (next_rows (db.message_seq + 1) published_at ps),
    )

next_ids-append :
    (seq : ℕ) (xs ys : List Publish)
    → next_ids seq (xs ++ ys) ≡ next_ids seq xs ++ next_ids (seq + length xs) ys
next_ids-append seq [] ys = ground arith
next_ids-append seq (x ∷ xs) ys = ground (arith, next_ids-append (seq + 1) xs ys)

next_rows-append :
    (seq published_at : ℕ) (xs ys : List Publish)
    → next_rows seq published_at (xs ++ ys)
      ≡ next_rows seq published_at xs ++ next_rows (seq + length xs) published_at ys
next_rows-append seq published_at [] ys = ground arith
next_rows-append seq published_at (x ∷ xs) ys =
    ground (arith, next_rows-append (seq + 1) published_at xs ys)

appended-append :
    (xs ys : List Publish) (published_at : ℕ) (db : Database)
    → appended (appended db xs published_at) ys published_at ≡ appended db (xs ++ ys) published_at
appended-append xs ys published_at db = ground (
  arith,
  length-append xs ys,
  next_rows-append db.message_seq published_at xs ys,
  append_assoc db.messages (next_rows db.message_seq published_at xs)
      (next_rows (db.message_seq + length xs) published_at ys),
)

-- What RETURNING gives, chunk by chunk, is a rearrangement of the IDs.
pub insert_chunks_lem :
    (pool : Pool) (lawful : ReturnsRows pool) (cs : List (List Publish)) (published_at : ℕ)
    (db : Database)
    → Permᴰ (insert_chunks pool db cs published_at).0 (next_ids db.message_seq (concat cs))
      × ((insert_chunks pool db cs published_at).1 ≡ appended db (concat cs) published_at)
unfolding insert_chunks
insert_chunks_lem pool lawful [] published_at db =
    (Permᴰ.nil, ground (arith, append-nil db.messages))
insert_chunks_lem pool lawful (c ∷ cs) published_at db =
    let later = insert_chunks_lem pool lawful cs published_at (appended db c published_at) in
    rw (insert_values_lem c published_at db) (
      subst (Permᴰ _) (sym (next_ids-append db.message_seq c (concat cs))) (
          Permᴰ.trans (Permᴰ.append_right _ (lawful.ids (next_ids db.message_seq c)))
            (Permᴰ.append_left (next_ids db.message_seq c) later.0)),
      later.1 ∙ appended-append c (concat cs) published_at db,
    )

next_ids-above : (seq : ℕ) (ps : List Publish) (i : ℕ) → Among i (next_ids seq ps) → seq < i
next_ids-above seq [] i m = elim m [ ]
next_ids-above seq (p ∷ ps) i (inl e) = omega (arith, e)
next_ids-above seq (p ∷ ps) i (inr m) = omega (arith, next_ids-above (seq + 1) ps i m)

next_ids-Ascending : (seq : ℕ) (ps : List Publish) → Ascending (λ (i : ℕ). i) (next_ids seq ps)
next_ids-Ascending seq [] = tt
next_ids-Ascending seq (p ∷ ps) =
    (λ i m. next_ids-above (seq + 1) ps i m, next_ids-Ascending (seq + 1) ps)

pub insert_message_rows_lem :
    (pool : Pool) (lawful : ReturnsRows pool) (ps : List Publish) (published_at : ℕ) (db : Database)
    → ◌≡◌ {A = List ℕ × Database}
        (insert_message_rows pool db ps published_at)
        (next_ids db.message_seq ps, appended db ps published_at)
unfolding insert_message_rows
insert_message_rows_lem pool lawful ps published_at db =
    let whole = concat-chunks publishes_per_chunk ps (omega arith) in
    let r = insert_chunks_lem pool lawful (chunks publishes_per_chunk ps) published_at db in
    let up = next_ids-Ascending db.message_seq (concat (chunks publishes_per_chunk ps)) in
    λ i. (
      (sort_by-Permᴰ (λ n. n) r.0
              (Distinct-Permᴰ (λ n. n) (Permᴰ.symm r.0) (Ascending-Distinct (λ n. n) _ up))
            ∙ sort_by_id (λ n. n) _ up
            ∙ ap (next_ids db.message_seq) whole)
          i,
      (r.1 ∙ ap (λ (xs : List Publish). appended db xs published_at) whole) i,
    )

-- A new row is a message of the batch with an ID of its own, above all earlier ones.
Among-next_rows :
    (seq published_at : ℕ) (ps : List Publish) (m : Message)
    → Among m (next_rows seq published_at ps)
    → (seq < m.id) × (m.id ≤ seq + length ps)
Among-next_rows seq published_at [] m n = elim n [ ]
Among-next_rows seq published_at (p ∷ ps) m (inl e) =
    (omega (arith, ap message_key e), omega (arith, ap message_key e))
Among-next_rows seq published_at (p ∷ ps) m (inr n) =
    let r = Among-next_rows (seq + 1) published_at ps m n in
    (omega (arith, r.0), omega (arith, r.1))

next_rows-Ascending :
    (seq published_at : ℕ) (ps : List Publish)
    → Ascending message_key (next_rows seq published_at ps)
next_rows-Ascending seq published_at [] = tt
next_rows-Ascending seq published_at (p ∷ ps) = (
  λ m n. (Among-next_rows (seq + 1) published_at ps m n).0,
  next_rows-Ascending (seq + 1) published_at ps,
)

pub appended-WellFormed :
    (db : Database) (ps : List Publish) (published_at : ℕ)
    → WellFormed db
    → WellFormed (appended db ps published_at)
appended-WellFormed db ps published_at w = record {
  log = record {
    ascend =
        Ascending-append message_key db.messages rows w.log.ascend
          (next_rows-Ascending db.message_seq published_at ps)
          (λ a b m n.
            omega
              (arith, w.log.bounded a m, (Among-next_rows db.message_seq published_at ps b n).0));
    bounded = λ m n. elim (Among-append m db.messages rows n) [
      | inl l ↦ omega (arith, w.log.bounded m l)
      | inr r ↦ omega (arith, (Among-next_rows db.message_seq published_at ps m r).1)
    ];
  };
  ledger = record {
    distinct = w.ledger.distinct;
    complete = λ k n. let r = w.ledger.complete k n in (r.0, r.1, omega (arith, r.2));
  };
  registry = record {
    ids = w.registry.ids;
    names = w.registry.names;
    bounded = w.registry.bounded;
    each = λ c n.
        let r = w.registry.each c n in
        record {
          cursor = omega (arith, r.cursor);
          drains = λ limit e. let k = r.drains limit e in (k.0, omega (arith, k.1));
          draining = r.draining;
        };
  };
  deliveries =
      IsWork-messages (db.messages ++ rows)
        (λ a n r. (r.0, Among-append_left r.0 db.messages rows r.1, r.2)) w.deliveries;
  archives =
      IsWork-messages (db.messages ++ rows)
        (λ a n r. (r.0, Among-append_left r.0 db.messages rows r.1, r.2)) w.archives;
  archive_ids = w.archive_ids;
  archives_bounded = w.archives_bounded;
  disjoint = w.disjoint;
}
  where
    rows : List Message
    rows = next_rows db.message_seq published_at ps
