-- ===== src/Consumer/Poll/Wakes.antt =====
-- The wait of `poll` in src/consumer.rs ends with a publish that the consumer matches.
use litefan.Prelude.{Option, some, List, String, Among}
use litefan.Api.{Filter, all, topic}
use litefan.Signals.{Signals}
use litefan.Consumer.{Consumer}

-- A publish to these topics has a message that the filter matches, or the filter takes every publish.
abbrev pub Matches : Filter → List (Option String) → Type 0
Matches all topics = Unit
Matches (topic t) topics = Among (some t) topics
