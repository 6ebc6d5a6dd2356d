-- ===== src/Consumer/Claim/Outcome.antt =====
-- What a claim answers: the errors that it can return, and the deliveries that it hands out.
use litefan.Prelude.{
  ℕ, ◌≤◌, ◌≡◌, refl, sym, ap, ◌∙◌, inl, inr, ◌⊎◌, true, List, [], ◌∷◌, arith, ==_iff, &&_iff, Among,
  length, is_nil, Option-cases, Bool-cases,
}
use litefan.Error.{
  Error, Result, ok, err, duration_out_of_range, clock_before_unix_epoch, ◌>>=◌, Result-cases,
}
use litefan.Api.{Message, Delivery}
use litefan.Time.{i64_max, SystemTime, now_ms, checked_add}
use litefan.Schema.{Database, DeliveryRow, find_consumer}
use litefan.Schema.WellFormed.{WellFormed}
use litefan.Storage.{Lease, ReturnsRows, owns, receipt_predicate}
use litefan.Store.{State}
use litefan.Consumer.{Consumer, deleted_error}
use litefan.Consumer.Claim.{
  Claimed, Interleaving, is_idle, scan_state, claim_transaction, matched, to_deliveries,
  claim_answer, claim_begin, claim, lease_of,
}
use litefan.Consumer.Claim.Transaction.{IsClaimed, claim_transaction_total}
use litefan.Consumer.Claim.Answer.{IsKept, transaction-deleted, claim_begin-Begun}

-- The only failures: the clock, the range of time stamps, and the deletion of the consumer.
abbrev pub ClaimError : Consumer → Error → Type 0
ClaimError self e =
    (e ≡ clock_before_unix_epoch) ⊎ ((e ≡ duration_out_of_range) ⊎ (e ≡ deleted_error self))

abbrev ErrorsOf {ℓ} : {A : Type ℓ} → Consumer → Result A → Type ℓ
ErrorsOf self m = (e : Error) → m ≡ err e → ClaimError self e

module _ {ℓ κ} {A : Type ℓ} {B : Type κ} (self : Consumer) where
  errors-bind :
      (m : Result A) (f : A → Result B)
      → ((e : Error) → m ≡ err e → ClaimError self e)
      → ((a : A) → m ≡ ok a → (e : Error) → f a ≡ err e → ClaimError self e)
      → (e : Error) → (m >>= f) ≡ err e
      → ClaimError self e
  errors-bind (ok a) f h k e q = k a refl e q
  errors-bind (err x) f h k e q = h e (cc)

errors-scan_state :
    (self : Consumer) (db : Database) (e : Error) → scan_state self db ≡ err e → ClaimError self e
unfolding scan_state
errors-scan_state self db e h = elim (Option-cases (find_consumer db self.id)) [
  | inl q ↦ inr (inr (cc (rw q at h)))
  | inr (c, q) ↦ cc (rw q at h)
]

errors-now_ms :
    (self : Consumer) (clock : SystemTime) (e : Error) → now_ms clock ≡ err e → ClaimError self e
unfolding now_ms
errors-now_ms self clock e h = ground arith

errors-checked_add :
    (self : Consumer) (a b : ℕ) (e : Error) → checked_add a b ≡ err e → ClaimError self e
unfolding checked_add
errors-checked_add self a b e h = ground arith

module _ (self : Consumer) (max_messages : ℕ) (lawful : ReturnsRows self.fan.pool)
    (small : max_messages ≤ i64_max) where
  errors-transaction :
      (lease_deadline now : ℕ) (db : Database)
      → WellFormed db
      → (e : Error) → claim_transaction self max_messages lease_deadline now db ≡ err e
      → ClaimError self e
  errors-transaction lease_deadline now db w e h = elim (Option-cases (find_consumer db self.id)) [
    | inl gone ↦
        inr (inr (cc (transaction-deleted self max_messages lease_deadline now db gone, h)))
    | inr (c, found) ↦
        let (done, q, good) =
          claim_transaction_total self max_messages lease_deadline now db c lawful w found small in
        cc (q, h)
  ]

  errors-claim_begin :
      (lease_ms now : ℕ) (others : Interleaving) (db : Database)
      → IsKept others
      → WellFormed db
      → (e : Error) → claim_begin self max_messages lease_ms now others db ≡ err e
      → ClaimError self e
  unfolding claim_begin
  errors-claim_begin lease_ms now others db kept w =
      errors-bind self (scan_state self db) _ (errors-scan_state self db) λ state _ e h.
        elim (Bool-cases (is_idle state now)) [
          | inl t ↦ cc (rw t at h)
          | inr f ↦
              errors-bind self (checked_add now lease_ms) _ (errors-checked_add self now lease_ms)
                (λ deadline _.
                  errors-bind self
                    (claim_transaction self max_messages deadline now (others.before db)) _
                    (errors-transaction deadline now (others.before db) (kept.before db w))
                    (λ done _ x q. cc))
                e (rw f at h)
        ]

  errors-claim_answer :
      (now : ℕ) (done : Claimed) (later : Database)
      → IsClaimed self max_messages done
      → (e : Error) → claim_answer self now done later ≡ err e
      → ClaimError self e
  unfolding claim_answer
  errors-claim_answer now done later good e h = elim (Bool-cases (is_nil done.leases)) [
    | inl t ↦
        errors-bind self (scan_state self later) _ (errors-scan_state self later)
          (λ state _ x q. cc) e (rw (good.complete, t) at h)
    | inr f ↦ cc (rw (good.complete, f) at h)
  ]

  -- If RETURNING gives each row once, `max_messages` fits in an `i64`, the database is well-formed and
  -- other connections keep it so, every failure of a claim is of the clock, of the range of time stamps
  -- or of a deleted consumer: none is `StorageInvariant` or a violated constraint.
  pub claim_errors :
      (lease_ms : ℕ) (clock : SystemTime) (others : Interleaving) (s : State)
      → IsKept others
      → WellFormed s.db
      → (e : Error) → (claim self max_messages lease_ms clock others s).0 ≡ err e
      → ClaimError self e
  unfolding claim
  claim_errors lease_ms clock others s kept w e h = elim (Result-cases (now_ms clock)) [
    | inr (x, p) ↦
        let q : x ≡ e = cc (rw (p, claim) at h) in errors-now_ms self clock e (p ∙ ap err q)
    | inl (now, p) ↦ elim (Result-cases (claim_begin self max_messages lease_ms now others s.db)) [
      | inr (x, f) ↦
          let q : x ≡ e = cc (rw (p, f, claim) at h) in
          errors-claim_begin lease_ms now others s.db kept w e (f ∙ ap err q)
      | inl (inl idle, f) ↦ cc (rw (p, f, claim) at h)
      | inl (inr done, f) ↦
          errors-claim_answer now done (others.after done.db)
            (claim_begin-Begun self max_messages lawful small lease_ms now others s.db kept w
              (inr done) f)
            e (rw (p, f, claim) at h)
    ]
  ]

-- The lease and the message of a delivery.
pub delivery_of :
    (id : ℕ) (ls : List Lease) (ms : List Message) (x : Delivery)
    → matched ls ms ≡ true
    → Among x (to_deliveries id ls ms)
    → (l : Lease) × Among l ls
      × (x.receipt
          ≡ record { consumer_id = id; message_id = l.message_id; generation = l.generation })
      × (x.message.id ≡ l.message_id)
      × (x.delivery_count ≡ l.delivery_count)
unfolding matched to_deliveries
delivery_of id [] ms x h n = elim n [ ]
delivery_of id (l ∷ ls) [] x h n = elim n [ ]
delivery_of id (l ∷ ls) (m ∷ ms) x h (inl e) = (
  l,
  inl refl,
  ap (λ (d : Delivery). d.receipt) e,
  ap (λ (d : Delivery). d.message.id) e ∙ sym ((==_iff l.message_id m.id).0 ((&&_iff _ _).0 h).0),
  ap (λ (d : Delivery). d.delivery_count) e,
)
delivery_of id (l ∷ ls) (m ∷ ms) x h (inr n) =
    let r = delivery_of id ls ms x ((&&_iff _ _).0 h).1 n in (r.0, inr r.1, r.2, r.3, r.4)

pub length-to_deliveries :
    (id : ℕ) (ls : List Lease) (ms : List Message) → length (to_deliveries id ls ms) ≤ length ls
unfolding to_deliveries
length-to_deliveries id [] ms = omega arith
length-to_deliveries id (l ∷ ls) [] = omega arith
length-to_deliveries id (l ∷ ls) (m ∷ ms) = omega (arith, length-to_deliveries id ls ms)

pub held-owns :
    (id : ℕ) (l : Lease) (d : DeliveryRow)
    → d.consumer_id ≡ id
    → l ≡ lease_of d
    → owns id
        (record { consumer_id = id; message_id = l.message_id; generation = l.generation } ∷ [])
        d
      ≡ true
unfolding owns receipt_predicate
held-owns id l d mine e = ground arith
