-- ===== src/Tests/Signals.antt =====
-- Subscriptions and wakeups at the registry of the fixtures, and a consumer that is opened twice.
use litefan.Prelude.{◌≡◌, refl, text_eq}
use litefan.Error.{ok, err}
use litefan.Api.{Filter, topic}
use litefan.Signals.{Signals, publishes_for, consumer_signal_for, signal_for_key, new_signals}
use litefan.Signals.Sharing.{
  IsApart, IsSubscribed, new_signals-IsApart, consumer_signal_for-publishes_for,
}
use litefan.Consumer.Lifecycle.{open_consumer}
use litefan.Consumer.{Consumer}
use litefan.Store.{State}
use litefan.Tests.Fixtures.{start, fan, worker, clock}

abbrev jobs : Filter
jobs = topic "jobs"

-- A registry in which a handle listens already.
abbrev busy : Signals
busy = (consumer_signal_for 1 (publishes_for jobs new_signals).1).1

busy-IsApart : IsApart busy
busy-IsApart = (consumer_signal_for-publishes_for jobs 1 new_signals new_signals-IsApart).valid

-- A second handle of the topic shares the first one's cell.
same_jobs : (publishes_for jobs busy).0 ≡ (publishes_for jobs new_signals).0
unfolding publishes_for consumer_signal_for signal_for_key text_eq
same_jobs = refl

consumer_signal_for-publishes_for_example :
    IsSubscribed jobs 2
      (publishes_for jobs busy).0
      (consumer_signal_for 2 (publishes_for jobs busy).1).0
      busy
      (consumer_signal_for 2 (publishes_for jobs busy).1).1
consumer_signal_for-publishes_for_example =
    consumer_signal_for-publishes_for jobs 2 busy busy-IsApart

-- The consumer's name, opened for the first time, and again with another filter.
abbrev newcomer : State
newcomer = elim (open_consumer fan "newcomer" jobs clock start) [ ok r ↦ r.1 | err e ↦ start ]

abbrev handle : Consumer
handle = elim (open_consumer fan "newcomer" jobs clock start) [ ok r ↦ r.0 | err e ↦ worker ]
