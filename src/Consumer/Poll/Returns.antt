-- ===== src/Consumer/Poll/Returns.antt =====
-- `poll` of src/consumer.rs returns when its deadline has passed, and does not sleep beyond it.
use litefan.Prelude.{
  ℕ, ◌+◌, ◌≤◌, ◌<◌, ◌≡◌, refl, inl, inr, ◌⊎◌, true, not, ◌&&◌, some, List, [], ◌∷◌, arith, ◌==◌,
  ==_iff, leb, leb_iff, min, is_nil, is_some, exists_where, Bool-cases, Option-cases,
}
use litefan.Error.{Result, ok, err, Result-cases, invalid_visibility_timeout}
use litefan.Api.{Duration, Delivery, Poll}
use litefan.Time.{SystemTime, duration_until_ms, duration_ms}
use litefan.Store.{State, ensure_batch_size}
use litefan.Consumer.{Consumer}
use litefan.Consumer.Claim.{Claim, claim}
use litefan.Consumer.Poll.{
  InstantAdd, Round, Turn, returns, sleeps, remaining_until, sleep_of, after_claim, poll_turn,
  poll_loop, poll_begin, poll,
}

-- A turn whose clock has reached the deadline returns.
after_claim-returns :
    (self : Consumer) (deadline : ℕ) (round : Round) (c : Claim)
    → deadline ≤ round.instant
    → (answer : Result (List Delivery)) × (after_claim self deadline round c ≡ returns answer)
unfolding after_claim
after_claim-returns self deadline round c late =
    let over : (remaining_until deadline round.instant == 0) ≡ true =
      (==_iff (remaining_until deadline round.instant) 0).1 (omega (arith, late)) in
    elim (Bool-cases (is_nil c.deliveries)) [
      | inr f ↦ (ok c.deliveries, rw f refl)
      | inl t ↦ elim (Bool-cases (c.draining && not (is_some c.next_visible_at))) [
        | inl drained ↦ (ok [], rw (t, drained) refl)
        | inr waits ↦ (ok [], rw (t, waits, over) refl)
      ]
    ]

poll_turn-returns :
    (self : Consumer) (max_messages lease_ms deadline : ℕ) (round : Round) (s : State)
    → deadline ≤ round.instant
    → (answer : Result (List Delivery)) × ((poll_turn self max_messages lease_ms deadline round s).0
        ≡ returns answer)
unfolding poll_turn
poll_turn-returns self max_messages lease_ms deadline round s late =
    elim (Result-cases (claim self max_messages lease_ms round.clock round.others s).0) [
      | inr (e, p) ↦ (err e, rw (p, poll_turn) refl)
      | inl (c, p) ↦
          let (answer, q) = after_claim-returns self deadline round c late in
          (answer, rw (p, poll_turn) q)
    ]

pub Turn-cases :
    (turn : Turn)
    → ((answer : Result (List Delivery)) × (turn ≡ returns answer))
      ⊎ ((sleep_for : Duration) × (turn ≡ sleeps sleep_for))
Turn-cases (returns answer) = inl (answer, refl)
Turn-cases (sleeps sleep_for) = inr (sleep_for, refl)

poll_loop-returns :
    (self : Consumer) (max_messages lease_ms deadline : ℕ) (rounds : List Round) (s : State)
    → exists_where (λ (r : Round). leb deadline r.instant) rounds ≡ true
    → (answer : Result (List Delivery)) × ((poll_loop self max_messages lease_ms deadline rounds
          s).0
        ≡ some answer)
unfolding poll_loop
poll_loop-returns self max_messages lease_ms deadline [] s h = cc h
poll_loop-returns self max_messages lease_ms deadline (round ∷ rounds) s h =
    elim (Turn-cases (poll_turn self max_messages lease_ms deadline round s).0) [
      | inl (answer, p) ↦ (answer, rw (p, poll_loop) refl)
      | inr (sleep_for, p) ↦ elim (Bool-cases (leb deadline round.instant)) [
        | inl late ↦
            let (answer, q) =
              poll_turn-returns self max_messages lease_ms deadline round s
                ((leb_iff deadline round.instant).0 late) in
            cc (p, q)
        | inr early ↦
            let (answer, q) =
              poll_loop-returns self max_messages lease_ms deadline rounds
                (round.meanwhile (poll_turn self max_messages lease_ms deadline round s).1)
                (rw early at h) in
            (answer, rw (p, poll_loop) q)
      ]
    ]

-- If the deadline `started + wait` is representable and the monotonic clock has reached it in one of
-- the rounds, `poll` returns, whatever other connections and tasks do.
pub poll-returns :
    (self : Consumer) (add : InstantAdd) (options : Poll) (started deadline : ℕ)
    (rounds : List Round) (s : State)
    → add started options.wait ≡ some deadline
    → exists_where (λ (r : Round). leb deadline r.instant) rounds ≡ true
    → (answer : Result (List Delivery)) × ((poll self add options started rounds s).0 ≡ some answer)
unfolding poll poll_begin
poll-returns self add options started deadline rounds s e h =
    elim (Bool-cases (options.max_messages == 0)) [
      | inl zero ↦ (ok [], rw zero refl)
      | inr f ↦ elim (Result-cases (ensure_batch_size self.fan options.max_messages)) [
        | inr (x, p) ↦ (err x, rw (f, p) refl)
        | inl (u, p) ↦ elim (Result-cases (duration_ms options.visibility_timeout)) [
          | inr (x, q) ↦ (err x, rw (f, p, q) refl)
          | inl (lease_ms, q) ↦ elim (Bool-cases (lease_ms == 0)) [
            | inl zero ↦ (err invalid_visibility_timeout, rw (f, p, q, zero) refl)
            | inr long ↦
                let (answer, r) =
                  poll_loop-returns self options.max_messages lease_ms deadline rounds s h in
                (answer, rw (f, p, q, long, e) r)
          ]
        ]
      ]
    ]

sleep_of-le :
    (self : Consumer) (remaining : Duration) (clock : SystemTime) (c : Claim) (d : Duration)
    → sleep_of self remaining clock c ≡ ok d
    → (d ≤ remaining) × (d ≤ self.fan.cross_process_poll_interval)
unfolding sleep_of
sleep_of-le self remaining clock c d h = elim (Option-cases c.next_visible_at) [
  | inl e ↦
      let q : min remaining self.fan.cross_process_poll_interval ≡ d = cc (rw e at h) in
      (omega (arith, q), omega (arith, q))
  | inr (visible_at, e) ↦ elim (Result-cases (duration_until_ms visible_at clock)) [
    | inr (x, p) ↦ cc (rw (e, p) at h)
    | inl (until_visible, p) ↦
        let q : min (min remaining self.fan.cross_process_poll_interval) until_visible ≡ d =
          cc (rw (e, p) at h) in
        (omega (arith, q), omega (arith, q))
  ]
]

-- A turn that waits has time left, sleeps no longer than the poll interval, and not beyond the
-- deadline.
pub after_claim-sleeps :
    (self : Consumer) (deadline : ℕ) (round : Round) (c : Claim) (sleep_for : Duration)
    → after_claim self deadline round c ≡ sleeps sleep_for
    → (round.instant < deadline)
      × (round.instant + sleep_for ≤ deadline)
      × (sleep_for ≤ self.fan.cross_process_poll_interval)
unfolding after_claim
after_claim-sleeps self deadline round c sleep_for h = elim (Bool-cases (is_nil c.deliveries)) [
  | inr f ↦ cc (rw f at h)
  | inl t ↦ elim (Bool-cases (c.draining && not (is_some c.next_visible_at))) [
    | inl drained ↦ cc (rw (t, drained) at h)
    | inr waits ↦ elim (Bool-cases (remaining_until deadline round.instant == 0)) [
      | inl over ↦ cc (rw (t, waits, over) at h)
      | inr early ↦
          let left : round.instant < deadline = ground (arith, early) in
          elim (Result-cases
            (sleep_of self (remaining_until deadline round.instant) round.wait_clock c)) [
              | inr (x, p) ↦ cc (rw (t, waits, early, p) at h)
              | inl (d, p) ↦
                  let e : d ≡ sleep_for = cc (rw (t, waits, early, p) at h) in
                  let (within, short) =
                    sleep_of-le self (remaining_until deadline round.instant) round.wait_clock c d
                      p in
                  (left, omega (arith, within, left, e), omega (arith, short, e))
            ]
    ]
  ]
]
