-- ===== src/Tests/Pruning.antt =====
-- Pruning a store in which one of two messages has been acknowledged.
use litefan.Prelude.{[], ◌∷◌}
use litefan.Api.{Prune, pos}
use litefan.Schema.WellFormed.{WellFormed}
use litefan.Store.{State}
use litefan.Consumer.Receipts.{with_deliveries, delete_receipts}
use litefan.Tests.Fixtures.{worker}
use litefan.Tests.Claims.{leased, receipt}

abbrev acked : State
acked = with_deliveries leased (delete_receipts worker.id (receipt ∷ []) leased.db.deliveries)

abbrev old_messages : Prune
old_messages = record { before_ms = pos 1_000; max_messages = 10 }
