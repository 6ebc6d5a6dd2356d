-- ===== src/Schema/Work.antt =====
-- How statements on deliveries and archives keep `IsWork`.
use litefan.Prelude.{
  ℕ, ◌≡◌, ◌≢◌, sym, ap, ◌∙◌, subst, refl, Bool, true, List, ◌++◌, inl, inr, Among, Among-append,
  Among-select_inv, Among-map_inv, Distinct-select, Distinct-append, Distinct-map, select,
  update_where, if◌then◌else◌, Bool-cases, ◌==◌, exists_where-true, arith,
}
use litefan.Api.{Message}
use litefan.Schema.{Database, ConsumerRow, has_consumer, has_message}
use litefan.Schema.WellFormed.{IsWork, Retained, Scanned}

module _ {A : Type 0} {key : A → ℕ × ℕ} {messages : List Message} {consumers : List ConsumerRow}
    {rows : List A} where
  pub IsWork-select :
      (p : A → Bool)
      → IsWork key messages consumers rows
      → IsWork key messages consumers (select p rows)
  IsWork-select p w = record {
    distinct = Distinct-select key p rows w.distinct;
    retained = λ a m. w.retained a (Among-select_inv p a rows m).0;
    scanned = λ a m. w.scanned a (Among-select_inv p a rows m).0;
  }

  pub IsWork-update :
      (p : A → Bool) (f : A → A)
      → ((a : A) → key (f a) ≡ key a)
      → IsWork key messages consumers rows
      → IsWork key messages consumers (update_where p f rows)
  IsWork-update p f same w = record {
    distinct = Distinct-map key g rows g_same w.distinct;
    retained = λ a m.
        let r = Among-map_inv g a rows m in
        subst (λ (k : ℕ × ℕ). Retained messages k.1) (back a r) (w.retained r.0 r.1);
    scanned = λ a m.
        let r = Among-map_inv g a rows m in
        subst (λ (k : ℕ × ℕ). Scanned consumers k.0 k.1) (back a r) (w.scanned r.0 r.1);
  }
    where
      g : A → A
      g a = if p a then f a else a

      g_same : (a : A) → key (g a) ≡ key a
      g_same a = elim (Bool-cases (p a)) [ inl t ↦ rw t (same a) | inr u ↦ rw u refl ]

      back : (a : A) (r : (b : A) × Among b rows × (a ≡ g b)) → key (r.0) ≡ key a
      back a r = sym (ap key r.2 ∙ g_same r.0)

  pub IsWork-append :
      (news : List A)
      → IsWork key messages consumers rows
      → IsWork key messages consumers news
      → ((a b : A) → Among a rows → Among b news → key a ≢ key b)
      → IsWork key messages consumers (rows ++ news)
  IsWork-append news w v h = record {
    distinct = Distinct-append key rows news w.distinct v.distinct h;
    retained = λ a m. elim (Among-append a rows news m) [
      | inl l ↦ w.retained a l
      | inr r ↦ v.retained a r
    ];
    scanned =
        λ a m. elim (Among-append a rows news m) [ inl l ↦ w.scanned a l | inr r ↦ v.scanned a r ];
  }

  pub IsWork-messages :
      (messages' : List Message)
      → ((a : A) → Among a rows → Retained messages (key a).1 → Retained messages' (key a).1)
      → IsWork key messages consumers rows
      → IsWork key messages' consumers rows
  IsWork-messages messages' keep w = record {
    distinct = w.distinct;
    retained = λ a m. keep a m (w.retained a m);
    scanned = w.scanned;
  }

  pub IsWork-consumers :
      (consumers' : List ConsumerRow)
      → ((a : A)
          → Among a rows
          → Scanned consumers (key a).0 (key a).1
          → Scanned consumers' (key a).0 (key a).1)
      → IsWork key messages consumers rows
      → IsWork key messages consumers' rows
  IsWork-consumers consumers' keep w = record {
    distinct = w.distinct;
    retained = w.retained;
    scanned = λ a m. keep a m (w.scanned a m);
  }

-- Work refers to rows that are there, as the REFERENCES of the schema ask.
pub has_message-Retained :
    (db : Database) (id : ℕ) → Retained db.messages id → has_message db id ≡ true
has_message-Retained db id (m, among, e) =
    exists_where-true (λ (x : Message). x.id == id) m db.messages among (ground arith)

pub has_consumer-Scanned :
    (db : Database) (c id : ℕ) → Scanned db.consumers c id → has_consumer db c ≡ true
has_consumer-Scanned db c id (row, among, e, le) =
    exists_where-true (λ (x : ConsumerRow). x.id == c) row db.consumers among (ground arith)

-- Every row has the key of a row that was there.
abbrev pub SameKeys {ℓ} : {A : Type ℓ} → (A → ℕ × ℕ) → List A → List A → Type ℓ
SameKeys {A = A} key rows' rows = (a : A) → Among a rows' → (b : A) × Among b rows × (key a ≡ key b)

module _ {A : Type 0} (key : A → ℕ × ℕ) (rows rows' : List A) where
  pub SameKeys-select :
      (p : A → Bool) → SameKeys key rows' rows → SameKeys key (select p rows') rows
  SameKeys-select p h a m = h a (Among-select_inv p a rows' m).0

  pub SameKeys-update :
      (p : A → Bool) (f : A → A)
      → ((a : A) → key (f a) ≡ key a)
      → SameKeys key rows' rows
      → SameKeys key (update_where p f rows') rows
  SameKeys-update p f same h a m =
      let r = Among-map_inv (λ x. if p x then f x else x) a rows' m in
      let k = h r.0 r.1 in (k.0, k.1, ap key r.2 ∙ unchanged r.0 ∙ k.2)
    where
      unchanged : (x : A) → key (if p x then f x else x) ≡ key x
      unchanged x = elim (Bool-cases (p x)) [ inl t ↦ rw t (same x) | inr u ↦ rw u refl ]
