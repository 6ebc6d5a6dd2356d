-- ===== src/Store/Publish/Plan.antt =====
-- The messages that `publish_batch` chooses to insert are those that publishing one by one inserts.
use litefan.Prelude.{
  ℕ, ◌+◌, ◌≡◌, refl, sym, ap, ◌∙◌, inl, inr, true, false, not, ◌&&◌, Option, none, some, List, [],
  ◌∷◌, map, arith, bytes_eq, bytes_eq_iff, is_some, Among, exists_where, Bool-cases, Option-cases,
}
use litefan.Api.{Publish}
use litefan.Storage.Appends.{next_ids}
use litefan.Store.Publish.{
  Key, Ledger, ledger_get, is_open, should_publish, mark, Scheduled, schedule, published_ids,
  updates,
}
use litefan.Store.Publish.OneByOne.{
  Known, known_key, learn, published_of, note, learned_of, positions_of,
}
use litefan.Store.Publish.Keys.{bytes_eq-false}

abbrev pub scheduled_message : Scheduled → Publish
scheduled_message p = p.message

module _ (Asked : Key → Type 0) (ledger : Ledger) where
  -- The ledger and the keys scheduled so far tell what is known of the keys of the batch.
  abbrev pub Agrees : List Key → Known → Type 0
  Agrees scheduled known =
      (k : Key)
      → Asked k
      → (is_open (ledger_get k ledger) && not (exists_where (bytes_eq k) scheduled))
        ≡ not (is_some (known k))

  abbrev pub AllAsked : List Publish → Type 0
  AllAsked ms = (m : Publish) → Among m ms → (k : Key) → m.idempotency_key ≡ some k → Asked k

  Agrees-mark :
      (scheduled : List Key) (known : Known) (key : Option Key) (id : ℕ)
      → Agrees scheduled known
      → Agrees (mark key scheduled) (learn known key id)
  Agrees-mark scheduled known none id h k asked = h k asked
  Agrees-mark scheduled known (some j) id h k asked = elim (Bool-cases (bytes_eq j k)) [
    | inl t ↦
        let e : bytes_eq k j ≡ true = (bytes_eq_iff k j).1 (sym ((bytes_eq_iff j k).0 t)) in
        rw (t, e) (ground arith)
    | inr f ↦
        let e : bytes_eq k j ≡ false =
          bytes_eq-false k j (λ q. cc ((bytes_eq_iff j k).1 (sym q), f)) in
        rw (f, e) (h k asked)
  ]

  should_publish-eq :
      (scheduled : List Key) (known : Known) (m : Publish)
      → Agrees scheduled known
      → ((k : Key) → m.idempotency_key ≡ some k → Asked k)
      → should_publish ledger scheduled m.idempotency_key
        ≡ not (is_some (known_key known m.idempotency_key))
  unfolding should_publish
  should_publish-eq scheduled known m h asked = elim (Option-cases m.idempotency_key) [
    | inl e ↦ rw e refl
    | inr (k, e) ↦ rw e (h k (asked k e))
  ]

  -- A message whose key is known is left out, and any other is scheduled.
  schedule_skip :
      (i : ℕ) (scheduled : List Key) (known : Known) (m : Publish) (ms : List Publish) (id : ℕ)
      → Agrees scheduled known
      → ((k : Key) → m.idempotency_key ≡ some k → Asked k)
      → known_key known m.idempotency_key ≡ some id
      → schedule ledger i scheduled (m ∷ ms) ≡ schedule ledger (i + 1) scheduled ms
  unfolding schedule
  schedule_skip i scheduled known m ms id h asked e =
      let f : should_publish ledger scheduled m.idempotency_key ≡ false =
        should_publish-eq scheduled known m h asked ∙ rw e refl in
      rw f refl

  schedule_take :
      (i : ℕ) (scheduled : List Key) (known : Known) (m : Publish) (ms : List Publish)
      → Agrees scheduled known
      → ((k : Key) → m.idempotency_key ≡ some k → Asked k)
      → known_key known m.idempotency_key ≡ none
      → schedule ledger i scheduled (m ∷ ms)
        ≡ record { position = i; message = m }
          ∷ schedule ledger (i + 1) (mark m.idempotency_key scheduled) ms
  unfolding schedule
  schedule_take i scheduled known m ms h asked e =
      let t : should_publish ledger scheduled m.idempotency_key ≡ true =
        should_publish-eq scheduled known m h asked ∙ rw e refl in
      rw t refl

  schedule_nil : (i : ℕ) (scheduled : List Key) → schedule ledger i scheduled [] ≡ []
  unfolding schedule
  schedule_nil i scheduled = refl

  updates-cons :
      (i : ℕ) (m : Publish) (id : ℕ) (plan : List Scheduled) (ids : List ℕ)
      → updates (record { position = i; message = m } ∷ plan) (id ∷ ids)
        ≡ note m.idempotency_key id (updates plan ids)
  unfolding updates
  updates-cons i m id plan ids = elim (Option-cases m.idempotency_key) [
    | inl e ↦ rw e refl
    | inr (k, e) ↦ rw e refl
  ]

  -- The plan, with the next IDs: what is inserted, under which IDs, and for which keys.
  pub schedule_lem :
      (i seq : ℕ) (scheduled : List Key) (known : Known) (ms : List Publish)
      → Agrees scheduled known
      → AllAsked ms
      → let plan = schedule ledger i scheduled ms in
        let ids = next_ids seq (map scheduled_message plan) in
        (map scheduled_message plan ≡ published_of known seq ms)
        × (published_ids plan ids ≡ positions_of known i seq ms)
        × (updates plan ids ≡ learned_of known seq ms)
  unfolding published_of positions_of learned_of published_ids updates
  schedule_lem i seq scheduled known [] h asked = rw (schedule_nil i scheduled) (refl, refl, refl)
  schedule_lem i seq scheduled known (m ∷ ms) h asked =
      elim (Option-cases (known_key known m.idempotency_key)) [
        | inr (id, e) ↦
            rw
              (
                schedule_skip i scheduled known m ms id h (asked m (inl refl)) e,
                e,
                published_of,
                positions_of,
                learned_of,
              )
              (schedule_lem (i + 1) seq scheduled known ms h (λ x n. asked x (inr n)))
        | inl e ↦
            let (a, b, c) =
              schedule_lem (i + 1) (seq + 1) (mark m.idempotency_key scheduled)
                (learn known m.idempotency_key (seq + 1)) ms
                (Agrees-mark scheduled known m.idempotency_key (seq + 1) h)
                (λ x n. asked x (inr n)) in
            rw
              (
                schedule_take i scheduled known m ms h (asked m (inl refl)) e,
                e,
                published_of,
                positions_of,
                learned_of,
              )
              (
                ap (◌∷◌ m) a,
                ap (◌∷◌ (i, seq + 1)) b,
                updates-cons i m (seq + 1)
                      (schedule ledger (i + 1) (mark m.idempotency_key scheduled) ms) _
                    ∙ ap (note m.idempotency_key (seq + 1)) c,
              )
      ]
