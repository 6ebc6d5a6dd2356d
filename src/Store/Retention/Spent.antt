-- ===== src/Store/Retention/Spent.antt =====
-- The messages that `prune_messages` may delete, and how many it chooses.
use litefan.Prelude.{
  ℕ, ◌≤◌, ◌≡◌, ◌≢◌, inl, inr, Bool, true, false, ◌||◌, List, [], ◌∷◌, ◌+◌, Distinct, count_le_one,
  arith, ◌==◌, ==_iff, Among, count_where, exists_where, exists_where-true, length, Bool-cases,
}
use litefan.Api.{Message, Prune, earlier}
use litefan.Schema.{Database, ConsumerRow, DeliveryRow, ArchiveRow}
use litefan.Schema.WellFormed.{message_key}
use litefan.Store.Retention.{is_prunable, unseen}

-- Old enough, without a delivery and an archive, and not ahead of a consumer.
pub record IsSpent (prune : Prune) (db : Database) (m : Message) : Type 0 where
  pub old : earlier m.published_at_ms prune.before_ms ≡ true
  pub delivered : (d : DeliveryRow) → Among d db.deliveries → d.message_id ≢ m.id
  pub archived : (a : ArchiveRow) → Among a db.archives → a.message_id ≢ m.id
  pub seen : (c : ConsumerRow) → Among c db.consumers → unseen c m ≡ false

all_false :
    {A : Type 0} (p : A → Bool) (xs : List A)
    → exists_where p xs ≡ false
    → (a : A) → Among a xs
    → p a ≡ false
all_false p xs h a m = elim (Bool-cases (p a)) [
  | inl t ↦ cc (exists_where-true p a xs m t, h)
  | inr f ↦ f
]

pub is_prunable-IsSpent :
    (prune : Prune) (db : Database) (m : Message)
    → is_prunable prune db m ≡ true
    → IsSpent prune db m
unfolding is_prunable
is_prunable-IsSpent prune db m h = record {
  old = parts.0;
  delivered = λ d n e.
      let f = all_false (λ (x : DeliveryRow). x.message_id == m.id) db.deliveries parts.1 d n in
      cc (f, (==_iff d.message_id m.id).1 e);
  archived = λ a n e.
      let f = all_false (λ (x : ArchiveRow). x.message_id == m.id) db.archives parts.2 a n in
      cc (f, (==_iff a.message_id m.id).1 e);
  seen = all_false (λ (c : ConsumerRow). unseen c m) db.consumers parts.3;
}
  where
    parts :
        (earlier m.published_at_ms prune.before_ms ≡ true)
        × (exists_where (λ (x : DeliveryRow). x.message_id == m.id) db.deliveries ≡ false)
        × (exists_where (λ (x : ArchiveRow). x.message_id == m.id) db.archives ≡ false)
        × (exists_where (λ (c : ConsumerRow). unseen c m) db.consumers ≡ false)
    parts = ground arith

count_or :
    (i : ℕ) (ids : List ℕ) (rows : List Message)
    → count_where (λ (m : Message). i == m.id || exists_where (λ id. id == m.id) ids) rows
      ≤ count_where (λ (m : Message). i == m.id) rows
        + count_where (λ (m : Message). exists_where (λ id. id == m.id) ids) rows
count_or i ids [] = omega arith
count_or i ids (x ∷ rows) = ground (arith, count_or i ids rows)

-- No more messages are chosen than IDs were selected.
pub count_among :
    (ids : List ℕ) (rows : List Message)
    → Distinct message_key rows
    → count_where (λ (m : Message). exists_where (λ id. id == m.id) ids) rows ≤ length ids
count_among [] [] d = omega arith
count_among [] (x ∷ rows) d = count_among [] rows d.1
count_among (i ∷ ids) rows d = omega (
  arith,
  count_or i ids rows,
  count_among ids rows d,
  count_le_one message_key (λ (m : Message). i == m.id) rows d (λ a b t u. ground arith),
)
