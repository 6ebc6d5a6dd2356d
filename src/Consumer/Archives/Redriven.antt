-- ===== src/Consumer/Archives/Redriven.antt =====
-- The transaction of `redrive_batch`, and what it leaves behind.
use litefan.Prelude.{
  ◌⊎◌, Among-select, Bool-cases, count_where, ℕ, ◌-◌, ◌/◌, ◌≡◌, ◌≢◌, refl, sym, ap, ◌∙◌, subst, inl,
  inr, true, not, List, [], ◌∷◌, ◌++◌, map, arith, Among, Among-append, Among-append_left,
  Among-append_right, Among-map, Among-map_inv, Among-select_inv, Ascending, Ascending-select,
  delete_where, concat-chunks, chunks, Distinct, Distinct-of_map, length,
}
use litefan.Error.{Result, ok, ◌>>=◌}
use litefan.Schema.{Database, DeliveryRow, ArchiveRow, insert_deliveries}
use litefan.Schema.WellFormed.{WellFormed, IsWork, delivery_key, archive_key, Retained, Scanned}
use litefan.Schema.Work.{IsWork-select, IsWork-append, has_message-Retained, has_consumer-Scanned}
use litefan.Schema.Inserts.{CanDeliver, insert_deliveries_lem}
use litefan.Storage.{ReturnsRows, max_sql_variables}
use litefan.Consumer.{Consumer}
use litefan.Consumer.Archives.{Restored, picks, restore_chunks, fresh_delivery, redrive_transaction}
use litefan.Consumer.Archives.Refilling.{insert_delivery_chunks-concat}
use litefan.Consumer.Archives.Restoring.{
  restore_chunks-rows, length-restore_chunks, IsRestored, restore_chunks-IsRestored,
}

-- A delivery that nobody has claimed yet.
abbrev pub unclaimed : ℕ → ℕ → ℕ → DeliveryRow
unclaimed consumer_id message_id visible_at = record {
  consumer_id = consumer_id;
  message_id = message_id;
  visible_at = visible_at;
  generation = 0;
  delivery_count = 0;
}

-- The archives that the batch names are deliveries again, from the start; the others, and every
-- delivery that was there, are as they were.
pub record IsRedriven (self : Consumer) (archive_ids : List ℕ) (visible_at : ℕ)
    (before after : Database) : Type 0 where
  pub valid : WellFormed after
  pub left : after.archives ≡ delete_where (picks self.id archive_ids) before.archives
  pub moved :
      (a : ArchiveRow)
      → Among a before.archives
      → picks self.id archive_ids a ≡ true
      → Among (unclaimed self.id a.message_id visible_at) after.deliveries
  pub earlier : (d : DeliveryRow) → Among d before.deliveries → Among d after.deliveries
  pub source :
      (d : DeliveryRow)
      → Among d after.deliveries
      → Among d before.deliveries
        ⊎ ((a : ArchiveRow) × Among a before.archives
            × (picks self.id archive_ids a ≡ true)
            × (d ≡ unclaimed self.id a.message_id visible_at))
  pub same_messages : after.messages ≡ before.messages
  pub same_consumers : after.consumers ≡ before.consumers
  pub same_ledger : after.idempotency ≡ before.idempotency

module _ (self : Consumer) (archive_ids : List ℕ) (visible_at : ℕ) (db : Database)
    (lawful : ReturnsRows self.fan.pool) (w : WellFormed db) where
  abbrev pub restored : Restored
  restored =
      restore_chunks self.fan.pool self.id (chunks (max_sql_variables - 1) archive_ids) db.archives

  abbrev news : List DeliveryRow
  news = map (fresh_delivery self.id visible_at) restored.message_ids

  abbrev pub after : Database
  after = record db { archives = restored.rows; deliveries = db.deliveries ++ news }

  is_restored : IsRestored self.id db.archives restored
  is_restored =
      restore_chunks-IsRestored self.fan.pool lawful self.id
        (chunks (max_sql_variables - 1) archive_ids) db.archives w.archives.distinct

  rows_left : restored.rows ≡ delete_where (picks self.id archive_ids) db.archives
  rows_left =
      restore_chunks-rows self.fan.pool self.id (chunks (max_sql_variables - 1) archive_ids)
        db.archives
      ∙ ap (λ (ids : List ℕ). delete_where (picks self.id ids) db.archives)
          (concat-chunks (max_sql_variables - 1) archive_ids (omega arith))

  pub length-restored :
      length restored.message_ids ≡ count_where (picks self.id archive_ids) db.archives
  length-restored =
      length-restore_chunks self.fan.pool lawful self.id
        (chunks (max_sql_variables - 1) archive_ids) db.archives
      ∙ ap (λ (ids : List ℕ). count_where (picks self.id ids) db.archives)
          (concat-chunks (max_sql_variables - 1) archive_ids (omega arith))

  -- The archive that a new delivery replaces.
  origin :
      (d : DeliveryRow)
      → Among d news
      → (a : ArchiveRow) × Among a db.archives
        × (delivery_key d ≡ archive_key a)
        × ((m : ℕ) × Among m restored.message_ids × (delivery_key d ≡ (self.id, m)))
  origin d n =
      let (m, k, e) = Among-map_inv (fresh_delivery self.id visible_at) d restored.message_ids n in
      let (a, among, same, mine) = is_restored.origin m k in
      (a, among, ap delivery_key e ∙ (λ i. (sym mine i, sym same i)), (m, k, ap delivery_key e))

  new_work : IsWork delivery_key db.messages db.consumers news
  new_work = record {
    distinct =
        Distinct-of_map (λ (m : ℕ). (self.id, m)) delivery_key (fresh_delivery self.id visible_at)
          restored.message_ids (λ m. refl) (keys restored.message_ids is_restored.distinct);
    retained = λ d n.
        let o = origin d n in
        subst (λ (k : ℕ × ℕ). Retained db.messages k.1) (sym o.2) (w.archives.retained o.0 o.1);
    scanned = λ d n.
        let o = origin d n in
        subst (λ (k : ℕ × ℕ). Scanned db.consumers k.0 k.1) (sym o.2) (w.archives.scanned o.0 o.1);
  }
    where
      keys :
          (ms : List ℕ)
          → Distinct (λ (m : ℕ). m) ms
          → Distinct {K = ℕ × ℕ} (λ (m : ℕ). (self.id, m)) ms
      keys [] d = tt
      keys (m ∷ ms) d = (λ a n e. d.0 a n (ap (λ (k : ℕ × ℕ). k.1) e), keys ms d.1)

  apart :
      (d e : DeliveryRow) → Among d db.deliveries → Among e news → delivery_key d ≢ delivery_key e
  apart d e m n same = let o = origin e n in w.disjoint d o.0 m o.1 (same ∙ o.2)

  can_deliver : CanDeliver (record db { archives = restored.rows }) news
  can_deliver = record {
    distinct = new_work.distinct;
    fresh = apart;
    consumers = λ d n. has_consumer-Scanned db d.consumer_id d.message_id (new_work.scanned d n);
    messages = λ d n. has_message-Retained db d.message_id (new_work.retained d n);
  }

  pub redrive_transaction_lem :
      redrive_transaction self archive_ids visible_at db ≡ ok (restored.message_ids, after)
  unfolding redrive_transaction
  redrive_transaction_lem =
      ap (λ (r : Result Database). r >>= λ db'. ok (restored.message_ids, db'))
        (insert_delivery_chunks-concat (chunks (max_sql_variables / 5) news)
            (record db { archives = restored.rows })
          ∙ ap (insert_deliveries (record db { archives = restored.rows }))
              (concat-chunks (max_sql_variables / 5) news (omega arith))
          ∙ insert_deliveries_lem news (record db { archives = restored.rows }) can_deliver)

  after-WellFormed : WellFormed after
  after-WellFormed = record {
    log = w.log;
    ledger = w.ledger;
    registry = w.registry;
    deliveries = IsWork-append news w.deliveries new_work apart;
    archives =
        subst (IsWork archive_key db.messages db.consumers) (sym rows_left)
          (IsWork-select (λ a. not (picks self.id archive_ids a)) w.archives);
    archive_ids = subst (Ascending (λ (a : ArchiveRow). a.id)) (sym rows_left) (
        Ascending-select (λ (a : ArchiveRow). a.id) (λ a. not (picks self.id archive_ids a))
          db.archives w.archive_ids);
    archives_bounded = λ a n. w.archives_bounded a (is_restored.kept a n);
    disjoint = λ d a m n. elim (Among-append d db.deliveries news m) [
      | inl l ↦ w.disjoint d a l (is_restored.kept a n)
      | inr r ↦ let o = origin d r in let k = o.3 in λ e. is_restored.gone k.0 a k.1 n (sym k.2 ∙ e)
    ];
  }

  -- Every new delivery is of an archive that the batch picks.
  redriven-source :
      (d : DeliveryRow)
      → Among d after.deliveries
      → Among d db.deliveries
        ⊎ ((a : ArchiveRow) × Among a db.archives
            × (picks self.id archive_ids a ≡ true)
            × (d ≡ fresh_delivery self.id visible_at a.message_id))
  redriven-source d n = elim (Among-append d db.deliveries news n) [
    | inl l ↦ inl l
    | inr r ↦
        let (m, k, e) =
          Among-map_inv (fresh_delivery self.id visible_at) d restored.message_ids r in
        let (a, among, same, mine) = is_restored.origin m k in
        elim (Bool-cases (picks self.id archive_ids a)) [
          | inl t ↦ inr (a, among, t, e ∙ ap (fresh_delivery self.id visible_at) (sym same))
          | inr f ↦ absurd (
              is_restored.gone m a k
                (subst (Among a) (sym rows_left) (
                  Among-select (λ x. not (picks self.id archive_ids x)) a db.archives among
                    (rw f refl)))
                (λ i. (sym mine i, sym same i)))
        ]
  ]

  pub redrive_transaction-IsRedriven : IsRedriven self archive_ids visible_at db after
  redrive_transaction-IsRedriven = record {
    valid = after-WellFormed;
    left = rows_left;
    moved = λ a m t. elim (is_restored.none_lost a m) [
      | inl n ↦
          let r =
            Among-select_inv (λ x. not (picks self.id archive_ids x)) a db.archives
              (subst (Among a) rows_left n) in
          cc (t, r.1)
      | inr n ↦
          Among-append_right (fresh_delivery self.id visible_at a.message_id) db.deliveries news
            (Among-map (fresh_delivery self.id visible_at) a.message_id restored.message_ids n)
    ];
    earlier = λ d m. Among-append_left d db.deliveries news m;
    source = redriven-source;
    same_messages = refl;
    same_consumers = refl;
    same_ledger = refl;
  }
