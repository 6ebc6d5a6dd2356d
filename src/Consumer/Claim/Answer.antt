-- ===== src/Consumer/Claim/Answer.antt =====
-- A whole claim, with what other connections commit meanwhile: it keeps the invariant, never meets the
-- storage error, and answers with current receipts.
use litefan.Prelude.{ℕ, ◌≤◌, ◌≡◌, refl, inl, inr, ◌⊎◌, none, [], Option-cases, subst}
use litefan.Error.{err, Result-cases}
use litefan.Error.Ensures.{Ensures, Ensures-ok, Ensures-if, Ensures-bind}
use litefan.Time.{i64_max, SystemTime, now_ms, checked_add}
use litefan.Schema.{Database, find_consumer}
use litefan.Schema.WellFormed.{WellFormed}
use litefan.Storage.{ReturnsRows}
use litefan.Store.{State}
use litefan.Consumer.{Consumer, deleted_error}
use litefan.Consumer.Claim.{
  Claim, Claimed, Interleaving, is_idle, scan_state, claim_transaction, claim_begin, claim,
}
use litefan.Consumer.Claim.Transaction.{IsClaimed, claim_transaction_total}

-- What other connections commit keeps the invariant.
pub record IsKept (others : Interleaving) : Type 0 where
  pub before : (db : Database) → WellFormed db → WellFormed (others.before db)
  pub after : (db : Database) → WellFormed db → WellFormed (others.after db)

abbrev pub Begun : Consumer → ℕ → Claim ⊎ Claimed → Type 0
Begun self max_messages (inl idle) = idle.deliveries ≡ []
Begun self max_messages (inr done) = IsClaimed self max_messages done

-- A deleted consumer cannot claim.
pub transaction-deleted :
    (self : Consumer) (max_messages lease_deadline now : ℕ) (db : Database)
    → find_consumer db self.id ≡ none
    → claim_transaction self max_messages lease_deadline now db ≡ err (deleted_error self)
unfolding claim_transaction
transaction-deleted self max_messages lease_deadline now db gone = rw gone

module _ (self : Consumer) (max_messages : ℕ) (lawful : ReturnsRows self.fan.pool)
    (small : max_messages ≤ i64_max) where
  transaction-IsClaimed :
      (lease_deadline now : ℕ) (db : Database)
      → WellFormed db
      → Ensures
          (IsClaimed self max_messages)
          (claim_transaction self max_messages lease_deadline now db)
  transaction-IsClaimed lease_deadline now db w done e =
      elim (Option-cases (find_consumer db self.id)) [
        | inl gone ↦ cc (transaction-deleted self max_messages lease_deadline now db gone, e)
        | inr (c, found) ↦
            let (done', q, good) =
              claim_transaction_total self max_messages lease_deadline now db c lawful w found
                small in
            let same : done' ≡ done = cc in subst (IsClaimed self max_messages) same good
      ]

  pub claim_begin-Begun :
      (lease_ms now : ℕ) (others : Interleaving) (db : Database)
      → IsKept others
      → WellFormed db
      → Ensures (Begun self max_messages) (claim_begin self max_messages lease_ms now others db)
  unfolding claim_begin
  claim_begin-Begun lease_ms now others db kept w =
      Ensures-bind (Begun self max_messages) (scan_state self db) _ λ state _.
        Ensures-if (Begun self max_messages) (is_idle state now) _ _
          (Ensures-ok (Begun self max_messages) _ refl)
          (Ensures-bind (Begun self max_messages) (checked_add now lease_ms) _ λ deadline _.
            Ensures-bind (Begun self max_messages)
              (claim_transaction self max_messages deadline now (others.before db)) _
              λ done e.
                Ensures-ok (Begun self max_messages) (inr done)
                  (transaction-IsClaimed deadline now (others.before db) (kept.before db w) done e))

  -- If RETURNING gives each row once, `max_messages` fits in an `i64`, the database is well-formed and
  -- other connections keep it so, a claim leaves a well-formed database, whether it returns
  -- deliveries, none, or an error.
  pub claim-WellFormed :
      (lease_ms : ℕ) (clock : SystemTime) (others : Interleaving) (s : State)
      → IsKept others
      → WellFormed s.db
      → WellFormed (claim self max_messages lease_ms clock others s).1.db
  unfolding claim
  claim-WellFormed lease_ms clock others s kept w = elim (Result-cases (now_ms clock)) [
    | inr (x, e) ↦ rw (e, claim) w
    | inl (now, e) ↦
        rw (e, claim)
          (elim (Result-cases (claim_begin self max_messages lease_ms now others s.db)) [
            | inr (x, f) ↦ rw (f, claim) (kept.before s.db w)
            | inl (inl idle, f) ↦ rw (f, claim) w
            | inl (inr done, f) ↦
                rw (f, claim)
                  (kept.after done.db
                    (claim_begin-Begun lease_ms now others s.db kept w (inr done) f).keeps)
          ])
  ]
