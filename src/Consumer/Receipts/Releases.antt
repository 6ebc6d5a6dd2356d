-- ===== src/Consumer/Receipts/Releases.antt =====
-- `nack_batch` of src/consumer.rs as one UPDATE.
use litefan.Prelude.{
  ℕ, ◌+◌, ◌-◌, ◌≤◌, ◌≡◌, ◌&&◌, subst, refl, sym, ap, ◌∙◌, inl, inr, true, false, List, [], ◌∷◌,
  ◌++◌, arith, ltb, leb, ◌==◌, if◌then◌else◌, Among, Among-append_right, All, length, concat,
  chunks, concat-chunks, count_where, update_where, none_of, Bool-cases,
}
use litefan.Error.{ok}
use litefan.Api.{Receipt, Retry, delay}
use litefan.Time.{SystemTime, now_ms, add_duration}
use litefan.Schema.{DeliveryRow}
use litefan.Signals.{notify}
use litefan.Storage.{receipts_per_chunk, receipt_predicate, owns}
use litefan.Store.{State, ensure_batch_size}
use litefan.Consumer.{Consumer}
use litefan.Consumer.Receipts.{for_chunks, release, release_receipts, nack_batch}
use litefan.Consumer.Receipts.Chunks.{owns-append, owns-nil}

-- No receipt is of a generation that its delivery has yet to reach.
abbrev pub IsIssued : List Receipt → DeliveryRow → Type 0
IsIssued receipts d =
    (r : Receipt)
    → Among r receipts
    → r.consumer_id ≡ d.consumer_id
    → r.message_id ≡ d.message_id
    → r.generation ≤ d.generation

module _ (id visible_at : ℕ) where
  -- A released delivery answers to no receipt of before.
  owns-release :
      (receipts : List Receipt) (d : DeliveryRow)
      → IsIssued receipts d
      → owns id receipts (release visible_at d) ≡ false
  unfolding owns receipt_predicate
  owns-release receipts d issued = ground (
    arith,
    none_of
        (λ (r : Receipt).
          r.consumer_id == d.consumer_id
          && r.message_id == d.message_id
          && r.generation == d.generation + 1)
        receipts (λ r n. ground (arith, issued r n)),
  )

  IsIssued-update :
      (xs ys : List Receipt) (rows : List DeliveryRow)
      → All (IsIssued ys) rows
      → All (IsIssued ys) (release_receipts id visible_at xs rows)
  IsIssued-update xs ys [] h = h
  IsIssued-update xs ys (d ∷ rows) h = elim (Bool-cases (owns id xs d)) [
    | inl t ↦ rw t ((λ r n e f. omega (arith, h.0 r n e f)), IsIssued-update xs ys rows h.1)
    | inr f ↦ rw f (h.0, IsIssued-update xs ys rows h.1)
  ]

  -- One UPDATE for both predicates does what two do, and counts each row once.
  release_both :
      (xs ys : List Receipt) (rows : List DeliveryRow)
      → All (IsIssued ys) rows
      → (release_receipts id visible_at (xs ++ ys) rows
          ≡ release_receipts id visible_at ys (release_receipts id visible_at xs rows))
        × (count_where (owns id (xs ++ ys)) rows
            ≡ count_where (owns id xs) rows
              + count_where (owns id ys) (release_receipts id visible_at xs rows))
  release_both xs ys [] h = (refl, refl)
  release_both xs ys (d ∷ rows) h =
      let rest = release_both xs ys rows h.1 in
      let both = owns-append id xs ys d in
      elim (Bool-cases (owns id xs d)) [
        | inl t ↦
            let spent = owns-release ys d h.0 in
            rw (both, t, spent) (ap (λ ds. release visible_at d ∷ ds) rest.0, omega (arith, rest.1))
        | inr f ↦ elim (Bool-cases (owns id ys d)) [
          | inl t ↦
              rw (both, f, t) (ap (λ ds. release visible_at d ∷ ds) rest.0, omega (arith, rest.1))
          | inr g ↦ rw (both, f, g) (ap (λ ds. d ∷ ds) rest.0, rest.1)
        ]
      ]

  IsIssued-later :
      (xs ys : List Receipt) (rows : List DeliveryRow)
      → All (IsIssued (xs ++ ys)) rows
      → All (IsIssued ys) rows
  IsIssued-later xs ys [] h = h
  IsIssued-later xs ys (d ∷ rows) h =
      ((λ r n. h.0 r (Among-append_right r xs ys n)), IsIssued-later xs ys rows h.1)

  release-nil : (rows : List DeliveryRow) → release_receipts id visible_at [] rows ≡ rows
  unfolding owns receipt_predicate
  release-nil [] = refl
  release-nil (d ∷ rows) = ground (arith, release-nil rows)

  for_chunks-release :
      (cs : List (List Receipt)) (rows : List DeliveryRow)
      → All (IsIssued (concat cs)) rows
      → ((for_chunks id (release_receipts id visible_at) cs rows).rows
          ≡ release_receipts id visible_at (concat cs) rows)
        × ((for_chunks id (release_receipts id visible_at) cs rows).applied
            ≡ count_where (owns id (concat cs)) rows)
  unfolding for_chunks
  for_chunks-release [] rows h = (sym (release-nil rows), sym (owns-nil id rows).1)
  for_chunks-release (c ∷ cs) rows h =
      let issued = IsIssued-later c (concat cs) rows h in
      let rest =
        for_chunks-release cs (release_receipts id visible_at c rows)
          (IsIssued-update c (concat cs) rows issued) in
      let both = release_both c (concat cs) rows issued in
      (rest.0 ∙ sym both.0, omega (arith, rest.1, both.1))

  for_chunks-release_whole :
      (receipts : List Receipt) (rows : List DeliveryRow)
      → All (IsIssued receipts) rows
      → for_chunks id (release_receipts id visible_at) (chunks receipts_per_chunk receipts) rows
        ≡ record {
          applied = count_where (owns id receipts) rows;
          rows = release_receipts id visible_at receipts rows;
        }
  for_chunks-release_whole receipts rows h =
      let whole = concat-chunks receipts_per_chunk receipts (omega arith) in
      let e =
        for_chunks-release (chunks receipts_per_chunk receipts) rows
          (subst (λ rs. All (IsIssued rs) rows) (sym whole) h) in
      λ i. record {
        applied = (e.1 ∙ ap (λ (rs : List Receipt). count_where (owns id rs) rows) whole) i;
        rows = (e.0 ∙ ap (λ (rs : List Receipt). release_receipts id visible_at rs rows) whole) i;
      }

-- What becomes of a delivery that is released.
abbrev pub next_attempt : ℕ → DeliveryRow → DeliveryRow
next_attempt visible_at d = record {
  consumer_id = d.consumer_id;
  message_id = d.message_id;
  visible_at = visible_at;
  generation = d.generation + 1;
  delivery_count = d.delivery_count;
}

-- The state after a release of `applied` deliveries: a poll is woken if there is one.
abbrev pub released : Consumer → List Receipt → ℕ → ℕ → State → State
released self receipts visible_at applied s = record {
  db = record s.db {
    deliveries = update_where (owns self.id receipts) (next_attempt visible_at) s.db.deliveries;
  };
  signals =
      if ltb 0 applied
      then record s.signals { heap = notify self.consumer_signal s.signals.heap }
      else s.signals;
}

-- If the batch is within the limit, the clock reads `now`, the delay ends at a representable time, and
-- no receipt is of a generation that its delivery has yet to reach, `nack_batch` succeeds: run
-- chunk by chunk, it gives exactly the rows of the consumer that a receipt names with the row's
-- current generation the new time and the next generation, each once, however often the batch
-- names it, and leaves the count of their deliveries; it counts each row once, and changes nothing
-- else but the consumer's signal, which it notifies if it released any.
pub nack_batch_lem :
    (self : Consumer) (receipts : List Receipt) (retry : Retry) (clock : SystemTime) (s : State)
    (now visible_at : ℕ)
    → length receipts ≤ self.fan.max_batch_size
    → now_ms clock ≡ ok now
    → add_duration now (delay retry) ≡ ok visible_at
    → All (IsIssued receipts) s.db.deliveries
    → let applied = count_where (owns self.id receipts) s.db.deliveries in
      nack_batch self receipts retry clock s
      ≡ ok (
        record { applied = applied; stale = length receipts - applied },
        released self receipts visible_at applied s,
      )
unfolding nack_batch ensure_batch_size
nack_batch_lem self [] retry clock s now visible_at small e window issued =
    rw ((owns-nil self.id s.db.deliveries).1, release-nil self.id visible_at s.db.deliveries)
nack_batch_lem self (r ∷ rs) retry clock s now visible_at small e window issued =
    let all = for_chunks-release_whole self.id visible_at (r ∷ rs) s.db.deliveries issued in
    let fits : leb (length (r ∷ rs)) self.fan.max_batch_size ≡ true = ground (arith, small) in
    rw (e, window, all) (ground arith)
