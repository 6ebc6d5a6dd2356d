-- ===== src/Tests/Draining.antt =====
-- Draining the consumer of the fixtures.
use litefan.Prelude.{true, ◌≡◌, refl}
use litefan.Error.{ok, err}
use litefan.Time.{now_ms}
use litefan.Schema.{update_consumers}
use litefan.Schema.WellFormed.{WellFormed}
use litefan.Store.{State}
use litefan.Consumer.Lifecycle.{begin_draining}
use litefan.Consumer.Lifecycle.Draining.{begin_draining-WellFormed}
use litefan.Tests.Fixtures.{start, start-WellFormed, worker, clock}

abbrev drained : State
drained = elim (begin_draining worker clock (λ db. db) start) [ ok r ↦ r.1 | err e ↦ start ]

draining_run : begin_draining worker clock (λ db. db) start ≡ ok (true, drained)
unfolding begin_draining update_consumers now_ms
draining_run = refl

begin_draining-WellFormed_example : WellFormed drained.db
begin_draining-WellFormed_example =
    begin_draining-WellFormed worker clock (λ db. db) start (λ db w. w) start-WellFormed
      (true, drained) draining_run
