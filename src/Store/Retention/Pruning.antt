-- ===== src/Store/Retention/Pruning.antt =====
-- `prune_messages` deletes no message that something still needs.
use litefan.Prelude.{
  ℕ, ◌≤◌, ◌≡◌, refl, sym, ap, ◌∙◌, inl, inr, ◌⊎◌, Bool, true, false, not, ◌&&◌, map, arith, ltb,
  ◌==◌, ==_iff, Among, Among-take, Among-map_inv, Among-sort_by, Among-select, Among-select_inv,
  Distinct-eq, Ascending-Distinct, Ascending-select, sort_by, select, delete_where, count_where,
  exists_where, exists_where-Among, delete_where-none, none_of, length-take, Bool-cases,
}
use litefan.Error.{ok}
use litefan.Api.{Message, Prune}
use litefan.Time.{i64_max, fits_i64}
use litefan.Schema.{Database, DeliveryRow, ArchiveRow, delete_messages}
use litefan.Schema.WellFormed.{WellFormed, message_key}
use litefan.Schema.Work.{IsWork-messages}
use litefan.Store.{State, LiteFan, ensure_batch_size}
use litefan.Store.Retention.{is_prunable, prune_selection, prune_messages}
use litefan.Store.Retention.Spent.{IsSpent, is_prunable-IsSpent, count_among}

-- Nothing but messages is deleted, none that is not spent, and none is new.
pub record IsPruned (prune : Prune) (before after : Database) : Type 0 where
  pub valid : WellFormed after
  pub same_deliveries : after.deliveries ≡ before.deliveries
  pub same_archives : after.archives ≡ before.archives
  pub same_consumers : after.consumers ≡ before.consumers
  pub same_ledger : after.idempotency ≡ before.idempotency
  pub same_counters :
      (after.message_seq ≡ before.message_seq)
      × (after.consumer_seq ≡ before.consumer_seq)
      × (after.archive_seq ≡ before.archive_seq)
  pub old : (m : Message) → Among m after.messages → Among m before.messages
  pub spent :
      (m : Message) → Among m before.messages → Among m after.messages ⊎ IsSpent prune before m

module _ (prune : Prune) (db : Database) (w : WellFormed db) where
  abbrev pub chosen : Message → Bool
  chosen m = exists_where (λ id. id == m.id) (prune_selection prune db)

  chosen-IsSpent : (m : Message) → Among m db.messages → chosen m ≡ true → IsSpent prune db m
  unfolding prune_selection
  chosen-IsSpent m n t =
      let (id, among, same) = exists_where-Among (λ id. id == m.id) (prune_selection prune db) t in
      let sorted = sort_by message_key (select (is_prunable prune db) db.messages) in
      let (x, there, e) =
        Among-map_inv message_key id sorted
          (Among-take id prune.max_messages (map message_key sorted) among) in
      let r =
        Among-select_inv (is_prunable prune db) x db.messages
          (Among-sort_by message_key x (select (is_prunable prune db) db.messages) there) in
      let one : x ≡ m =
        Distinct-eq message_key db.messages x m
          (Ascending-Distinct message_key db.messages w.log.ascend) r.0 n
          (sym e ∙ (==_iff id m.id).0 same) in
      is_prunable-IsSpent prune db m (ap (is_prunable prune db) (sym one) ∙ r.1)

  no_archive :
      exists_where
        (λ (m : Message).
          chosen m && exists_where (λ (a : ArchiveRow). a.message_id == m.id) db.archives)
        db.messages
      ≡ false
  no_archive = none_of _ db.messages λ m n. elim (Bool-cases (chosen m)) [
    | inl t ↦ rw t (
        none_of (λ (a : ArchiveRow). a.message_id == m.id) db.archives
          λ a k. ground (arith, (chosen-IsSpent m n t).archived a k))
    | inr f ↦ rw f refl
  ]

  untouched :
      delete_where
        (λ (d : DeliveryRow).
          exists_where (λ (m : Message). chosen m && m.id == d.message_id) db.messages)
        db.deliveries
      ≡ db.deliveries
  untouched = delete_where-none _ db.deliveries (
      none_of _ db.deliveries λ d k. none_of _ db.messages λ m n. elim (Bool-cases (chosen m)) [
        | inl t ↦ ground (arith, (chosen-IsSpent m n t).delivered d k)
        | inr f ↦ rw f refl
      ])

  pub delete_messages_lem :
      delete_messages db chosen ≡ ok (record db { messages = delete_where chosen db.messages })
  unfolding delete_messages
  delete_messages_lem = rw (no_archive, untouched) refl

  count-chosen : count_where chosen db.messages ≤ prune.max_messages
  unfolding prune_selection
  count-chosen = omega (
    arith,
    count_among (prune_selection prune db) db.messages
        (Ascending-Distinct message_key db.messages w.log.ascend),
    length-take prune.max_messages
        (map message_key (sort_by message_key (select (is_prunable prune db) db.messages))),
  )

  stays :
      (m : Message)
      → Among m db.messages
      → Among m (delete_where chosen db.messages) ⊎ IsSpent prune db m
  stays m n = elim (Bool-cases (chosen m)) [
    | inl t ↦ inr (chosen-IsSpent m n t)
    | inr f ↦ inl (Among-select (λ x. not (chosen x)) m db.messages n (rw f refl))
  ]

  pub pruned-WellFormed : WellFormed (record db { messages = delete_where chosen db.messages })
  pruned-WellFormed = record {
    log = record {
      ascend = Ascending-select message_key (λ m. not (chosen m)) db.messages w.log.ascend;
      bounded = λ m n. w.log.bounded m (Among-select_inv (λ x. not (chosen x)) m db.messages n).0;
    };
    ledger = w.ledger;
    registry = w.registry;
    deliveries =
        IsWork-messages (delete_where chosen db.messages)
          (λ d k r. elim (stays r.0 r.1) [
            | inl l ↦ (r.0, l, r.2)
            | inr v ↦ absurd (v.delivered d k (sym r.2))
          ])
          w.deliveries;
    archives =
        IsWork-messages (delete_where chosen db.messages)
          (λ a k r. elim (stays r.0 r.1) [
            | inl l ↦ (r.0, l, r.2)
            | inr v ↦ absurd (v.archived a k (sym r.2))
          ])
          w.archives;
    archive_ids = w.archive_ids;
    archives_bounded = w.archives_bounded;
    disjoint = w.disjoint;
  }

  pub delete_messages-IsPruned :
      IsPruned prune db (record db { messages = delete_where chosen db.messages })
  delete_messages-IsPruned = record {
    valid = pruned-WellFormed;
    same_deliveries = refl;
    same_archives = refl;
    same_consumers = refl;
    same_ledger = refl;
    same_counters = (refl, refl, refl);
    old = λ m n. (Among-select_inv (λ x. not (chosen x)) m db.messages n).0;
    spent = stays;
  }

pub prune_messages-IsPruned :
    (fan : LiteFan) (prune : Prune) (s : State)
    → WellFormed s.db
    → prune.max_messages ≤ fan.max_batch_size
    → prune.max_messages ≤ i64_max
    → (deleted : ℕ) × (s' : State) × (prune_messages fan prune s ≡ ok (deleted, s'))
      × (deleted ≤ prune.max_messages)
      × (s'.signals ≡ s.signals)
      × IsPruned prune s.db s'.db
unfolding prune_messages ensure_batch_size
prune_messages-IsPruned fan prune s w room small = elim (Bool-cases (prune.max_messages == 0)) [
  | inl t ↦ (
    0,
    s,
    rw t refl,
    omega arith,
    refl,
    record {
      valid = w;
      same_deliveries = refl;
      same_archives = refl;
      same_consumers = refl;
      same_ledger = refl;
      same_counters = (refl, refl, refl);
      old = λ m n. n;
      spent = λ m n. inl n;
    },
  )
  | inr f ↦ (
    count_where (chosen prune s.db w) s.db.messages,
    record s { db = record s.db { messages = delete_where (chosen prune s.db w) s.db.messages } },
    rw (f, not_above, fits, delete_messages_lem prune s.db w) refl,
    count-chosen prune s.db w,
    refl,
    delete_messages-IsPruned prune s.db w,
  )
]
  where
    not_above : ltb fan.max_batch_size prune.max_messages ≡ false
    not_above = ground arith

    fits : fits_i64 prune.max_messages ≡ true
    fits = ground arith
