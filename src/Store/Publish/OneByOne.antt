-- ===== src/Store/Publish/OneByOne.antt =====
-- What publishing a batch means: the messages one by one, against what is known of their keys.
use litefan.Prelude.{ℕ, ◌+◌, Option, none, some, List, [], ◌∷◌, if◌then◌else◌, bytes_eq}
use litefan.Api.{Publish, PublishOutcome, published, duplicate}
use litefan.Schema.{IdempotencyRow}
use litefan.Store.Publish.{Key}

-- The message that holds a key, where one does.
abbrev pub Known : Type 0
Known = Key → Option ℕ

abbrev pub known_key : Known → Option Key → Option ℕ
known_key known none = none
known_key known (some k) = known k

abbrev pub learn : Known → Option Key → ℕ → Known
learn known none id = known
learn known (some k) id = λ j. if bytes_eq k j then some id else known j

-- A message whose key is known is a duplicate; any other takes the next ID, and its key is known.
unfoldable pub outcomes_of : Known → ℕ → List Publish → List PublishOutcome
outcomes_of known seq [] = []
outcomes_of known seq (m ∷ ms) = elim (known_key known m.idempotency_key) [
  | some id ↦ duplicate id ∷ outcomes_of known seq ms
  | none ↦ published (seq + 1) ∷ outcomes_of (learn known m.idempotency_key (seq + 1)) (seq + 1) ms
]

unfoldable pub published_of : Known → ℕ → List Publish → List Publish
published_of known seq [] = []
published_of known seq (m ∷ ms) = elim (known_key known m.idempotency_key) [
  | some id ↦ published_of known seq ms
  | none ↦ m ∷ published_of (learn known m.idempotency_key (seq + 1)) (seq + 1) ms
]

unfoldable pub known_after : Known → ℕ → List Publish → Known
known_after known seq [] = known
known_after known seq (m ∷ ms) = elim (known_key known m.idempotency_key) [
  | some id ↦ known_after known seq ms
  | none ↦ known_after (learn known m.idempotency_key (seq + 1)) (seq + 1) ms
]

abbrev pub note : Option Key → ℕ → List (Key × ℕ) → List (Key × ℕ)
note none id rest = rest
note (some k) id rest = (k, id) ∷ rest

-- The keys that become known, and the positions of the batch that are published, with their IDs.
unfoldable pub learned_of : Known → ℕ → List Publish → List (Key × ℕ)
learned_of known seq [] = []
learned_of known seq (m ∷ ms) = elim (known_key known m.idempotency_key) [
  | some id ↦ learned_of known seq ms
  | none ↦
      note m.idempotency_key (seq + 1)
        (learned_of (learn known m.idempotency_key (seq + 1)) (seq + 1) ms)
]

unfoldable pub positions_of : Known → ℕ → ℕ → List Publish → List (ℕ × ℕ)
positions_of known i seq [] = []
positions_of known i seq (m ∷ ms) = elim (known_key known m.idempotency_key) [
  | some id ↦ positions_of known (i + 1) seq ms
  | none ↦
      (i, seq + 1) ∷ positions_of (learn known m.idempotency_key (seq + 1)) (i + 1) (seq + 1) ms
]

-- What a ledger knows: the message of the row of a key.
unfoldable pub row_get : Key → List IdempotencyRow → Option (Option ℕ)
row_get key [] = none
row_get key (row ∷ rows) = if bytes_eq row.key key then some row.message_id else row_get key rows

abbrev pub flatten {ℓ} : {A : Type ℓ} → Option (Option A) → Option A
flatten none = none
flatten (some v) = v

abbrev pub known_of : List IdempotencyRow → Known
known_of rows key = flatten (row_get key rows)
