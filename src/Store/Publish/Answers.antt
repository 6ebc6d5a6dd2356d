-- ===== src/Store/Publish/Answers.antt =====
-- The answers of `publish_batch`, read off its positions and its ledger.
use litefan.Prelude.{
  ℕ, ◌+◌, ◌≤◌, ◌<◌, ◌≡◌, refl, sym, ap, ◌∙◌, inl, inr, Option, none, some, List, [], ◌∷◌, arith,
  Among, Option-cases,
}
use litefan.Error.{ok}
use litefan.Api.{Publish, PublishOutcome, published, duplicate}
use litefan.Store.Publish.{Key, Ledger, id_at, known_id, outcome_of, outcomes}
use litefan.Store.Publish.OneByOne.{Known, known_key, learn, outcomes_of, known_after, positions_of}
use litefan.Store.Publish.Learned.{known_after-known}

id_at-positions_of :
    (known : Known) (i seq j : ℕ) (ms : List Publish)
    → j < i
    → id_at j (positions_of known i seq ms) ≡ none
unfolding id_at positions_of
id_at-positions_of known i seq j [] h = refl
id_at-positions_of known i seq j (m ∷ ms) h =
    elim (Option-cases (known_key known m.idempotency_key)) [
      | inr (id, e) ↦
          rw (e, positions_of) (id_at-positions_of known (i + 1) seq j ms (omega (arith, h)))
      | inl e ↦
          rw (e, positions_of)
            (ground (
              arith,
              id_at-positions_of (learn known m.idempotency_key (seq + 1)) (i + 1) (seq + 1) j ms,
            ))
    ]

outcome_of-published :
    (ids : List (ℕ × ℕ)) (ledger : Ledger) (i : ℕ) (key : Option Key) (id : ℕ)
    → id_at i ids ≡ some id
    → outcome_of ids ledger i key ≡ ok (published id)
unfolding outcome_of
outcome_of-published ids ledger i key id h = rw (h, outcome_of) refl

outcome_of-duplicate :
    (ids : List (ℕ × ℕ)) (ledger : Ledger) (i : ℕ) (key : Option Key) (id : ℕ)
    → id_at i ids ≡ none
    → known_id ledger key ≡ some id
    → outcome_of ids ledger i key ≡ ok (duplicate id)
unfolding outcome_of
outcome_of-duplicate ids ledger i key id h q = rw (h, q, outcome_of) refl

outcomes-cons :
    (ids : List (ℕ × ℕ)) (ledger : Ledger) (i : ℕ) (m : Publish) (ms : List Publish)
    (o : PublishOutcome) (os : List PublishOutcome)
    → outcome_of ids ledger i m.idempotency_key ≡ ok o
    → outcomes ids ledger (i + 1) ms ≡ ok os
    → outcomes ids ledger i (m ∷ ms) ≡ ok (o ∷ os)
unfolding outcomes
outcomes-cons ids ledger i m ms o os h rest = rw (h, rest) refl

outcomes_nil : (ids : List (ℕ × ℕ)) (ledger : Ledger) (i : ℕ) → outcomes ids ledger i [] ≡ ok []
unfolding outcomes
outcomes_nil ids ledger i = refl

known_id-known :
    (ledger : Ledger) (known : Known) (key : Option Key) (id : ℕ)
    → known_key known key ≡ some id
    → ((k : Key) → key ≡ some k → known_id ledger (some k) ≡ some id)
    → known_id ledger key ≡ some id
known_id-known ledger known none id e h = cc e
known_id-known ledger known (some k) id e h = h k refl

module _ (Asked : Key → Type 0) (ids : List (ℕ × ℕ)) (ledger : Ledger) where
  -- If the positions from `i` on are those of the published messages, and the ledger knows of each
  -- key what is known after the batch, the answers are those of publishing one by one.
  pub outcomes_lem :
      (i seq : ℕ) (known : Known) (ms : List Publish)
      → ((j : ℕ) → i ≤ j → id_at j ids ≡ id_at j (positions_of known i seq ms))
      → ((k : Key) → Asked k → known_id ledger (some k) ≡ known_after known seq ms k)
      → ((m : Publish) → Among m ms → (k : Key) → m.idempotency_key ≡ some k → Asked k)
      → outcomes ids ledger i ms ≡ ok (outcomes_of known seq ms)
  unfolding outcomes_of id_at positions_of known_after
  outcomes_lem i seq known [] at_ids at_keys asked = outcomes_nil ids ledger i
  outcomes_lem i seq known (m ∷ ms) at_ids at_keys asked =
      elim (Option-cases (known_key known m.idempotency_key)) [
        | inr (id, e) ↦
            let none_here : id_at i ids ≡ none =
              at_ids i (omega arith)
              ∙ rw (e, positions_of) (id_at-positions_of known (i + 1) seq i ms (omega arith)) in
            let here : known_id ledger m.idempotency_key ≡ some id =
              known_id-known ledger known m.idempotency_key id e (λ k q.
                at_keys k (asked m (inl refl) k q)
                ∙ known_after-known known seq (m ∷ ms) k id (sym (ap (known_key known) q) ∙ e)) in
            let rest =
              outcomes_lem (i + 1) seq known ms
                (λ j h. rw (e, positions_of) at (at_ids j (omega (arith, h))))
                (λ k a. rw (e, known_after) at (at_keys k a)) (λ x n. asked x (inr n)) in
            rw (e, outcomes_of)
              (outcomes-cons ids ledger i m ms (duplicate id) (outcomes_of known seq ms)
                (outcome_of-duplicate ids ledger i m.idempotency_key id none_here here) rest)
        | inl e ↦
            let here : id_at i ids ≡ some (seq + 1) =
              at_ids i (omega arith) ∙ rw (e, positions_of) (ground arith) in
            let rest =
              outcomes_lem (i + 1) (seq + 1) (learn known m.idempotency_key (seq + 1)) ms
                (λ j h. at_ids j (omega (arith, h)) ∙ rw (e, positions_of) (ground (arith, h)))
                (λ k a. rw (e, known_after) at (at_keys k a)) (λ x n. asked x (inr n)) in
            rw (e, outcomes_of)
              (outcomes-cons ids ledger i m ms (published (seq + 1)) _
                (outcome_of-published ids ledger i m.idempotency_key (seq + 1) here) rest)
      ]
