-- ===== src/Consumer/Poll/Keeps.antt =====
-- What `poll` of src/consumer.rs leaves behind and hands out.
use litefan.Prelude.{
  ℕ, ◌≤◌, ◌≡◌, refl, sym, ap, ◌∙◌, inl, inr, true, false, not, ◌&&◌, Option, none, some, List, [],
  ◌∷◌, ◌==◌, is_nil, is_some, All, Bool-cases, subst,
}
use litefan.Error.{Result, ok, Result-cases}
use litefan.Api.{Delivery, Poll}
use litefan.Time.{i64_max}
use litefan.Schema.WellFormed.{WellFormed}
use litefan.Storage.{ReturnsRows}
use litefan.Store.{State}
use litefan.Consumer.{Consumer}
use litefan.Consumer.Claim.{Claim, Interleaving, alone, claim}
use litefan.Consumer.Claim.Answer.{IsKept, claim-WellFormed}
use litefan.Consumer.Claim.Receipts.{IsHandedOut, nothing, claim-IsHandedOut}
use litefan.Consumer.Poll.{
  InstantAdd, Round, returns, remaining_until, sleep_of, after_claim, poll_turn, poll_loop,
  poll_begin, poll,
}
use litefan.Consumer.Poll.Returns.{Turn-cases}

-- Others keep the invariant in the round.
pub record KeepsRound (round : Round) : Type 0 where
  pub others : IsKept round.others
  pub meanwhile : (s : State) → WellFormed s.db → WellFormed (round.meanwhile s).db

-- No other connection writes during the round's claim.
pub record IsAlone (round : Round) : Type 0 where
  pub others : round.others ≡ alone
  pub meanwhile : (s : State) → WellFormed s.db → WellFormed (round.meanwhile s).db

abbrev pub handed_out : List Delivery → Claim
handed_out ds = record { deliveries = ds; next_visible_at = none; draining = false }

module _ (self : Consumer) (max_messages : ℕ) (lawful : ReturnsRows self.fan.pool)
    (small : max_messages ≤ i64_max) (lease_ms deadline : ℕ) where
  poll_turn-state :
      (round : Round) (s : State)
      → (poll_turn self max_messages lease_ms deadline round s).1
        ≡ (claim self max_messages lease_ms round.clock round.others s).1
  unfolding poll_turn
  poll_turn-state round s = refl

  poll_loop-WellFormed :
      (rounds : List Round) (s : State)
      → All KeepsRound rounds
      → WellFormed s.db
      → WellFormed (poll_loop self max_messages lease_ms deadline rounds s).1.db
  unfolding poll_loop
  poll_loop-WellFormed [] s kept w = w
  poll_loop-WellFormed (round ∷ rounds) s kept w =
      let claimed : WellFormed (poll_turn self max_messages lease_ms deadline round s).1.db =
        rw (poll_turn-state round s) (
          claim-WellFormed self max_messages lawful small lease_ms round.clock round.others s
            kept.0.others w) in
      elim (Turn-cases (poll_turn self max_messages lease_ms deadline round s).0) [
        | inl (answer, p) ↦ rw (p, poll_loop) claimed
        | inr (sleep_for, p) ↦
            rw (p, poll_loop)
              (poll_loop-WellFormed rounds
                (round.meanwhile (poll_turn self max_messages lease_ms deadline round s).1) kept.1
                (kept.0.meanwhile _ claimed))
      ]

  -- A turn that returns deliveries returns those of its claim.
  after_claim-answer :
      (round : Round) (c : Claim) (ds : List Delivery)
      → after_claim self deadline round c ≡ returns (ok ds)
      → c.deliveries ≡ ds
  unfolding after_claim
  after_claim-answer round c ds h = elim (Bool-cases (is_nil c.deliveries)) [
    | inr f ↦ cc (rw f at h)
    | inl t ↦ elim (Bool-cases (c.draining && not (is_some c.next_visible_at))) [
      | inl drained ↦ let e : [] ≡ ds = cc (rw (t, drained) at h) in nil c.deliveries t ∙ e
      | inr waits ↦ elim (Bool-cases (remaining_until deadline round.instant == 0)) [
        | inl over ↦ let e : [] ≡ ds = cc (rw (t, waits, over) at h) in nil c.deliveries t ∙ e
        | inr early ↦
            elim (Result-cases
              (sleep_of self (remaining_until deadline round.instant) round.wait_clock c)) [
                | inr (x, p) ↦ cc (rw (t, waits, early, p) at h)
                | inl (d, p) ↦ cc (rw (t, waits, early, p) at h)
              ]
      ]
    ]
  ]
    where
      nil : (xs : List Delivery) → is_nil xs ≡ true → xs ≡ []
      nil [] e = refl
      nil (x ∷ xs) e = cc e

  poll_turn-IsHandedOut :
      (round : Round) (s : State) (ds : List Delivery)
      → round.others ≡ alone
      → WellFormed s.db
      → (poll_turn self max_messages lease_ms deadline round s).0 ≡ returns (ok ds)
      → IsHandedOut self max_messages
          (handed_out ds)
          (poll_turn self max_messages lease_ms deadline round s).1
  unfolding poll_turn
  poll_turn-IsHandedOut round s ds same w h =
      let after = (claim self max_messages lease_ms round.clock round.others s).1 in
      elim (Result-cases (claim self max_messages lease_ms round.clock round.others s).0) [
        | inr (e, p) ↦ cc (rw (p, poll_turn) at h)
        | inl (c, p) ↦
            let run : claim self max_messages lease_ms round.clock alone s ≡ (ok c, after) =
              ap (λ (o : Interleaving). claim self max_messages lease_ms round.clock o s) (sym same)
              ∙ λ i. (p i, after) in
            let good =
              claim-IsHandedOut self max_messages lease_ms round.clock s after c lawful small w
                run in
            let plain : IsHandedOut self max_messages (handed_out c.deliveries) after = record {
              bounded = good.bounded;
              own_message = good.own_message;
              current = good.current;
            } in
            subst (λ (xs : List Delivery). IsHandedOut self max_messages (handed_out xs) after)
              (after_claim-answer round c ds (rw (p, poll_turn) at h)) plain
      ]

  poll_loop-IsHandedOut :
      (rounds : List Round) (s s' : State) (ds : List Delivery)
      → All IsAlone rounds
      → WellFormed s.db
      → poll_loop self max_messages lease_ms deadline rounds s ≡ (some (ok ds), s')
      → IsHandedOut self max_messages (handed_out ds) s'
  unfolding poll_loop
  poll_loop-IsHandedOut [] s s' ds kept w h =
      cc (ap (λ (r : Option (Result (List Delivery)) × State). r.0) h)
  poll_loop-IsHandedOut (round ∷ rounds) s s' ds kept w h =
      elim (Turn-cases (poll_turn self max_messages lease_ms deadline round s).0) [
        | inl (answer, p) ↦
            let q = rw (p, poll_loop) at h in
            let same : answer ≡ ok ds =
              cc (ap (λ (r : Option (Result (List Delivery)) × State). r.0) q) in
            subst (IsHandedOut self max_messages (handed_out ds))
              (ap (λ (r : Option (Result (List Delivery)) × State). r.1) q)
              (poll_turn-IsHandedOut round s ds kept.0.others w (p ∙ ap returns same))
        | inr (sleep_for, p) ↦
            poll_loop-IsHandedOut rounds
              (round.meanwhile (poll_turn self max_messages lease_ms deadline round s).1) s' ds
              kept.1
              (kept.0.meanwhile _ (
                rw (poll_turn-state round s) (
                  claim-WellFormed self max_messages lawful small lease_ms round.clock round.others
                    s (rw kept.0.others (record { before = λ db v. v; after = λ db v. v })) w)))
              (rw (p, poll_loop) at h)
      ]

module _ (self : Consumer) (add : InstantAdd) (options : Poll) (started : ℕ)
    (lawful : ReturnsRows self.fan.pool) (small : options.max_messages ≤ i64_max) where
  -- If RETURNING gives each row once, `max_messages` fits in an `i64`, the database is well-formed and
  -- others keep it so in every round, `poll` leaves a well-formed database, whatever it answers.
  pub poll-WellFormed :
      (rounds : List Round) (s : State)
      → All KeepsRound rounds
      → WellFormed s.db
      → WellFormed (poll self add options started rounds s).1.db
  unfolding poll
  poll-WellFormed rounds s kept w = elim (Bool-cases (options.max_messages == 0)) [
    | inl zero ↦ rw zero w
    | inr f ↦ elim (Result-cases (poll_begin self add options started)) [
      | inr (x, p) ↦ rw (f, p, poll) w
      | inl ((lease_ms, deadline), p) ↦
          rw (f, p, poll)
            (poll_loop-WellFormed self options.max_messages lawful small lease_ms deadline rounds s
              kept w)
    ]
  ]

  -- If RETURNING gives each row once, `max_messages` fits in an `i64`, the database is well-formed,
  -- other tasks keep it so while the poll waits and no other connection writes during its claims,
  -- what a `poll` returns is at most `max_messages` deliveries, each with its own message and a receipt
  -- that is current in the state left behind.
  pub poll-IsHandedOut :
      (rounds : List Round) (s s' : State) (ds : List Delivery)
      → All IsAlone rounds
      → WellFormed s.db
      → poll self add options started rounds s ≡ (some (ok ds), s')
      → IsHandedOut self options.max_messages (handed_out ds) s'
  unfolding poll
  poll-IsHandedOut rounds s s' ds kept w h = elim (Bool-cases (options.max_messages == 0)) [
    | inl zero ↦
        let q = rw zero at h in
        let e : ok [] ≡ ok ds = cc (ap (λ (r : Option (Result (List Delivery)) × State). r.0) q) in
        nothing self options.max_messages (handed_out ds) s' (cc e)
    | inr f ↦ elim (Result-cases (poll_begin self add options started)) [
      | inr (x, p) ↦
          cc (ap (λ (r : Option (Result (List Delivery)) × State). r.0) (rw (f, p, poll) at h))
      | inl ((lease_ms, deadline), p) ↦
          poll_loop-IsHandedOut self options.max_messages lawful small lease_ms deadline rounds s s'
            ds kept w (rw (f, p, poll) at h)
    ]
  ]
