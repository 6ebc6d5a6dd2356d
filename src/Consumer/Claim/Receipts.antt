-- ===== src/Consumer/Claim/Receipts.antt =====
-- The receipts of a claim.
use litefan.Prelude.{
  ℕ, ◌≤◌, ◌≡◌, sym, ap, ◌∙◌, ◌⊎◌, inl, inr, true, [], arith, Among, length, is_nil, none,
  Bool-cases, exists_where-true, subst,
}
use litefan.Error.{Result, ok, Result-cases}
use litefan.Api.{Delivery}
use litefan.Time.{i64_max, SystemTime, now_ms}
use litefan.Schema.WellFormed.{WellFormed}
use litefan.Storage.{ReturnsRows, owns}
use litefan.Store.{State}
use litefan.Consumer.{Consumer}
use litefan.Consumer.Receipts.Fencing.{is_current}
use litefan.Consumer.Claim.{
  Claim, Claimed, ScanState, alone, scan_state, claim_answer, claim_begin, claim, to_deliveries,
  empty_claim,
}
use litefan.Consumer.Claim.Transaction.{IsClaimed}
use litefan.Consumer.Claim.Answer.{Begun, claim_begin-Begun}
use litefan.Consumer.Claim.Outcome.{delivery_of, length-to_deliveries, held-owns}

-- What a claim hands out: at most as many deliveries as asked for, each with its own message and a
-- receipt that is current in the state that the claim left.
pub record IsHandedOut (self : Consumer) (max_messages : ℕ) (c : Claim) (s : State) : Type 0 where
  pub bounded : length c.deliveries ≤ max_messages
  pub own_message : (d : Delivery) → Among d c.deliveries → d.receipt.message_id ≡ d.message.id
  pub current : (d : Delivery) → Among d c.deliveries → is_current self d.receipt s ≡ true

pub nothing :
    (self : Consumer) (max_messages : ℕ) (c : Claim) (s : State)
    → c.deliveries ≡ []
    → IsHandedOut self max_messages c s
nothing self max_messages c s e = record {
  bounded = rw e (omega arith);
  own_message = λ d n. elim (subst (Among d) e n) [ ];
  current = λ d n. elim (subst (Among d) e n) [ ];
}

empty_deliveries :
    (now : ℕ) (state : ScanState) (c : Claim)
    → ok (empty_claim now state) ≡ ok c
    → c.deliveries ≡ []
unfolding empty_claim
empty_deliveries now state c q =
    let e : empty_claim now state ≡ c = cc in ap (λ (x : Claim). x.deliveries) (sym e)

full_deliveries :
    (id : ℕ) (done : Claimed) (c : Claim)
    → ok (record {
      deliveries = to_deliveries id done.leases done.messages;
      next_visible_at = none;
      draining = done.draining;
    })
      ≡ ok c
    → c.deliveries ≡ to_deliveries id done.leases done.messages
full_deliveries id done c q = ground arith

module _ (self : Consumer) (max_messages now : ℕ) (done : Claimed)
    (good : IsClaimed self max_messages done) where
  full_answer :
      (c : Claim) (s : State)
      → s.db ≡ done.db
      → c.deliveries ≡ to_deliveries self.id done.leases done.messages
      → IsHandedOut self max_messages c s
  full_answer c s same e = record {
    bounded =
        omega (
          arith,
          ap length e,
          length-to_deliveries self.id done.leases done.messages,
          good.bounded,
        );
    own_message = λ d n.
        let r =
          delivery_of self.id done.leases done.messages d good.complete (subst (Among d) e n) in
        ap (λ x. x.message_id) r.2 ∙ sym r.3;
    current = λ d n.
        let r =
          delivery_of self.id done.leases done.messages d good.complete (subst (Among d) e n) in
        let (row, among, mine, eq) = good.held r.0 r.1 in
        rw (same, r.2)
          (exists_where-true (owns self.id _) row done.db.deliveries among
            (held-owns self.id r.0 row mine eq));
  }

  answer-IsHandedOut :
      (c : Claim) (s : State)
      → s.db ≡ done.db
      → claim_answer self now done s.db ≡ ok c
      → IsHandedOut self max_messages c s
  unfolding claim_answer
  answer-IsHandedOut c s same h = elim (Bool-cases (is_nil done.leases)) [
    | inl t ↦ elim (Result-cases (scan_state self s.db)) [
      | inl (state, q) ↦
          nothing self max_messages c s
            (empty_deliveries now state c (rw (good.complete, t, q) at h))
      | inr (e, q) ↦ cc (rw (good.complete, t, q) at h)
    ]
    | inr f ↦ full_answer c s same (full_deliveries self.id done c (rw (good.complete, f) at h))
  ]

finish :
    (self : Consumer) (max_messages now : ℕ) (done : Claimed)
    → IsClaimed self max_messages done
    → (c : Claim) (s s' : State)
    → ◌≡◌ {A = Result Claim × State}
        (claim_answer self now done done.db, record s { db = done.db })
        (ok c, s')
    → IsHandedOut self max_messages c s'
finish self max_messages now done good c s s' k =
    let same = ap (λ (r : Result Claim × State). r.1.db) (sym k) in
    answer-IsHandedOut self max_messages now done good c s' same
      (rw same (ap (λ (r : Result Claim × State). r.0) k))

-- If RETURNING gives each row once, `max_messages` fits in an `i64`, the database is well-formed and
-- no other connection writes meanwhile, a claim that succeeds hands out at most `max_messages`
-- deliveries, each with its own message and a receipt that is current in the state left behind.
pub claim-IsHandedOut :
    (self : Consumer) (max_messages lease_ms : ℕ) (clock : SystemTime) (s s' : State) (c : Claim)
    → ReturnsRows self.fan.pool
    → max_messages ≤ i64_max
    → WellFormed s.db
    → claim self max_messages lease_ms clock alone s ≡ (ok c, s')
    → IsHandedOut self max_messages c s'
unfolding claim
claim-IsHandedOut self max_messages lease_ms clock s s' c lawful small w h =
    elim (Result-cases (now_ms clock)) [
      | inr (x, p) ↦ cc (rw (p, claim) at h)
      | inl (now, p) ↦ elim (Result-cases (claim_begin self max_messages lease_ms now alone s.db)) [
        | inr (x, f) ↦ cc (rw (p, f, claim) at h)
        | inl (inl idle, f) ↦
            let q : idle ≡ c = cc (rw (p, f, claim) at h) in
            nothing self max_messages c s'
              (ap (λ (x : Claim). x.deliveries) (sym q) ∙ begun now (inl idle) f)
        | inl (inr done, f) ↦
            finish self max_messages now done (begun now (inr done) f) c s s'
              (rw (p, f, claim) at h)
      ]
    ]
  where
    begun :
        (now : ℕ) (r : Claim ⊎ Claimed)
        → claim_begin self max_messages lease_ms now alone s.db ≡ ok r
        → Begun self max_messages r
    begun now r f =
        claim_begin-Begun self max_messages lawful small lease_ms now alone s.db
          (record { before = λ db v. v; after = λ db v. v }) w r f
