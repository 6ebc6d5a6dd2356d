-- ===== src/Tests/Fixtures.antt =====
-- A store with two messages and one active consumer that has claimed nothing, and a handle of it.
use litefan.Prelude.{none, some, [], ◌∷◌, ◌≡◌, refl, inl, inr, arith, ap, sym, subst}
use mathlib.Core.List.Permᴰ
use litefan.Api.{Message, all, from_millis}
use litefan.Time.{SystemTime, since_unix_epoch}
use litefan.Schema.{Database, ConsumerRow}
use litefan.Schema.WellFormed.{WellFormed, IsConsumer}
use litefan.Signals.{Signals, new_signal}
use litefan.Storage.{Pool, ReturnsRows}
use litefan.Store.{State, LiteFan}
use litefan.Consumer.{Consumer}

abbrev pub first_message : Message
first_message = record { id = 1; topic = none; body = 104 ∷ 105 ∷ []; published_at_ms = 50 }

abbrev pub second_message : Message
second_message = record { id = 2; topic = some "jobs"; body = 111 ∷ []; published_at_ms = 60 }

abbrev pub worker_row : ConsumerRow
worker_row = record {
  id = 1;
  name = "worker";
  topic_filter = none;
  created_at = 40;
  draining_at = none;
  scan_cursor = 0;
  drain_cursor = none;
}

abbrev pub database : Database
database = record {
  messages = first_message ∷ second_message ∷ [];
  message_seq = 2;
  idempotency = [];
  consumers = worker_row ∷ [];
  consumer_seq = 1;
  deliveries = [];
  archives = [];
  archive_seq = 0;
}

abbrev pub signals : Signals
signals = record {
  heap = new_signal ∷ new_signal ∷ [];
  all_publishes = 0;
  topics = [];
  consumers = (1, 1) ∷ [];
}

abbrev pub start : State
start = record { db = database; signals = signals }

abbrev pub pool : Pool
pool = record {
  returning_ids = λ xs. xs;
  returning_leases = λ xs. xs;
  returning_archived = λ xs. xs;
}

pub pool-ReturnsRows : ReturnsRows pool
pool-ReturnsRows = record {
  ids = λ xs. Permᴰ.refl xs;
  leases = λ xs. Permᴰ.refl xs;
  archived = λ xs. Permᴰ.refl xs;
}

abbrev pub fan : LiteFan
fan = record {
  pool = pool;
  max_batch_size = 500;
  cross_process_poll_interval = from_millis 250;
  idempotency_window_ms = 86_400_000;
}

abbrev pub worker : Consumer
worker = record {
  publish_signal = 0;
  consumer_signal = 1;
  fan = fan;
  id = 1;
  name = "worker";
  filter = all;
}

-- One hundred milliseconds after the epoch.
abbrev pub clock : SystemTime
clock = since_unix_epoch (from_millis 100)

worker_row-IsConsumer : (c : ConsumerRow) → c ≡ worker_row → IsConsumer c 2
worker_row-IsConsumer c e =
    subst (λ (x : ConsumerRow). IsConsumer x 2) (sym e)
      (record { cursor = omega arith; drains = λ limit q. cc; draining = refl })

pub start-WellFormed : WellFormed start.db
start-WellFormed = record {
  log = record {
    ascend = (
      (λ m n. elim n [ inl e ↦ omega (arith, ap (λ (x : Message). x.id) e) | inr v ↦ elim v [ ] ]),
      ((λ m n. elim n [ ]), tt),
    );
    bounded = λ m n. elim n [
      | inl e ↦ omega (arith, ap (λ (x : Message). x.id) e)
      | inr (inl e) ↦ omega (arith, ap (λ (x : Message). x.id) e)
      | inr (inr v) ↦ elim v [ ]
    ];
  };
  ledger = record { distinct = tt; complete = λ k n. elim n [ ] };
  registry = record {
    ids = ((λ c n. elim n [ ]), tt);
    names = ((λ c n. elim n [ ]), tt);
    bounded = λ c n. elim n [
      | inl e ↦ omega (arith, ap (λ (x : ConsumerRow). x.id) e)
      | inr v ↦ elim v [ ]
    ];
    each = λ c n. elim n [ inl e ↦ worker_row-IsConsumer c e | inr v ↦ elim v [ ] ];
  };
  deliveries = record { distinct = tt; retained = λ a n. elim n [ ]; scanned = λ a n. elim n [ ] };
  archives = record { distinct = tt; retained = λ a n. elim n [ ]; scanned = λ a n. elim n [ ] };
  archive_ids = tt;
  archives_bounded = λ a n. elim n [ ];
  disjoint = λ d a n. elim n [ ];
}
