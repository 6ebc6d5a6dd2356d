-- ===== src/Consumer/Poll.antt =====
-- src/consumer.rs, `poll`: a loop of claims and waits until something is claimed, the consumer is
-- drained, or the deadline has passed. What the clocks read, what other connections commit and what
-- other tasks do while the loop waits is given round by round; the rounds are the fuel of the loop.
pub mod Returns
pub mod Keeps
pub mod Wakes
use litefan.Prelude.{
  ℕ, ◌-◌, Bool, true, false, not, ◌&&◌, ◌||◌, Option, none, some, List, [], ◌∷◌, ◌==◌, leb, min,
  if◌then◌else◌, is_nil, is_some,
}
use litefan.Error.{Result, ok, err, or_fail, invalid_poll, invalid_visibility_timeout, ◌>>=◌, ◌>>◌}
use litefan.Api.{Duration, Delivery, Poll}
use litefan.Time.{SystemTime, duration_ms, duration_until_ms}
use litefan.Signals.{Signals, generation_at}
use litefan.Store.{State, ensure_batch_size}
use litefan.Consumer.{Consumer}
use litefan.Consumer.Claim.{Claim, Interleaving, claim}

-- `Instant::checked_add`, on readings of the monotonic clock in nanoseconds.
abbrev pub InstantAdd : Type 0
InstantAdd = ℕ → Duration → Option ℕ

-- What the two receivers have marked as seen: the generation of each signal.
pub record Seen : Type 0 where
  pub publishes : Option ℕ
  pub consumer_changes : Option ℕ

-- `borrow_and_update` of both receivers
abbrev pub borrow_and_update : Consumer → Signals → Seen
borrow_and_update self signals = record {
  publishes = generation_at self.publish_signal signals.heap;
  consumer_changes = generation_at self.consumer_signal signals.heap;
}

abbrev pub same_generation : Option ℕ → Option ℕ → Bool
same_generation none none = true
same_generation (some a) (some b) = a == b
same_generation _ _ = false

-- `publishes.changed()` or `consumer_changes.changed()` is ready. The handle keeps both senders, so
-- neither can fail.
unfoldable pub is_changed : Consumer → Seen → Signals → Bool
is_changed self seen signals =
    let now = borrow_and_update self signals in
    not (same_generation seen.publishes now.publishes)
    || not (same_generation seen.consumer_changes now.consumer_changes)

-- `select!` has a branch that is ready after the time `elapsed`.
abbrev pub select_ends : Consumer → Seen → Duration → Duration → Signals → Bool
select_ends self seen sleep_for elapsed signals =
    is_changed self seen signals || leb sleep_for elapsed

-- `deadline.saturating_duration_since(now)`
abbrev pub remaining_until : ℕ → ℕ → Duration
remaining_until deadline now = deadline - now

-- One turn of the loop: the clock of its claim, what others commit around the claim's transaction,
-- the two clocks that are read after it, and what others do until the wait is over.
pub record Round : Type 0 where
  pub clock : SystemTime
  pub others : Interleaving
  pub instant : ℕ
  pub wait_clock : SystemTime
  pub meanwhile : State → State

pub data Turn : Type 0 where
  returns : Result (List Delivery) → Turn
  sleeps : Duration → Turn

-- `sleep_for`, from the time that remains and the claim.
unfoldable pub sleep_of : Consumer → Duration → SystemTime → Claim → Result Duration
sleep_of self remaining wait_clock c =
    let sleep_for = min remaining self.fan.cross_process_poll_interval in
    elim c.next_visible_at [
      | none ↦ ok sleep_for
      | some next_visible_at ↦ duration_until_ms next_visible_at wait_clock >>= λ until_visible.
          ok (min sleep_for until_visible)
    ]

unfoldable pub after_claim : Consumer → ℕ → Round → Claim → Turn
unfolding sleep_of
after_claim self deadline round c =
    if not (is_nil c.deliveries)
    then returns (ok c.deliveries)
    else if c.draining && not (is_some c.next_visible_at)
    then returns (ok [])
    else if remaining_until deadline round.instant == 0
    then returns (ok [])
    else elim (sleep_of self (remaining_until deadline round.instant) round.wait_clock c) [
      | err e ↦ returns (err e)
      | ok sleep_for ↦ sleeps sleep_for
    ]

unfoldable pub poll_turn : Consumer → ℕ → ℕ → ℕ → Round → State → Turn × State
unfolding after_claim
poll_turn self max_messages lease_ms deadline round s =
    let claimed = claim self max_messages lease_ms round.clock round.others s in
    (
      (elim claimed.0 [ err e ↦ returns (err e) | ok c ↦ after_claim self deadline round c ]),
      claimed.1,
    )

-- The loop; `none` says that it still waits after the last round.
unfoldable pub poll_loop :
    Consumer → ℕ → ℕ → ℕ → List Round → State → Option (Result (List Delivery)) × State
unfolding poll_turn
poll_loop self max_messages lease_ms deadline [] s = (none, s)
poll_loop self max_messages lease_ms deadline (round ∷ rounds) s =
    let turn = poll_turn self max_messages lease_ms deadline round s in
    let rest = poll_loop self max_messages lease_ms deadline rounds (round.meanwhile turn.1) in
    elim turn.0 [ returns answer ↦ (some answer, turn.1) | sleeps sleep_for ↦ rest ]

-- The checks before the loop: the lease and the deadline.
unfoldable pub poll_begin : Consumer → InstantAdd → Poll → ℕ → Result (ℕ × ℕ)
poll_begin self add poll started = do
  ensure_batch_size self.fan poll.max_messages
  lease_ms ← duration_ms poll.visibility_timeout
  if lease_ms == 0 then err invalid_visibility_timeout else (do
    deadline ← or_fail (invalid_poll "wait is too large") (add started poll.wait)
    ok (lease_ms, deadline))

unfoldable pub poll :
    Consumer → InstantAdd → Poll → ℕ → List Round → State → Option (Result (List Delivery)) × State
unfolding poll_begin poll_loop
poll self add options started rounds s =
    if options.max_messages == 0
    then (some (ok []), s)
    else elim (poll_begin self add options started) [
      | err e ↦ (some (err e), s)
      | ok (lease_ms, deadline) ↦ poll_loop self options.max_messages lease_ms deadline rounds s
    ]
