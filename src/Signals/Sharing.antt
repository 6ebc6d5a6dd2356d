-- ===== src/Signals/Sharing.antt =====
-- `publishes_for` and `consumer` of src/signals.rs: a live cell is shared, and nobody loses one.
use litefan.Prelude.{
  ℕ, ◌<◌, ◌≡◌, ◌≢◌, refl, sym, ap, ◌∙◌, inl, inr, Option, some, List, ◌++◌, arith, String, ==_iff,
  text_eq, text_eq_iff, Among, length, length-append, Distinct,
}
use litefan.Api.{Filter, all, topic}
use litefan.Signals.{
  Signal, Signals, Registered, new_signals, nat_eq, generation_at, upgrade, signal_for_key,
  publishes_for, consumer_signal_for,
}
use litefan.Signals.Wakeups.{live}
use litefan.Signals.Joining.{generation_at-append, upgrade-append, Joins, signal_for_key-Joins}
use litefan.Signals.Subscribing.{IsSignals, Listens, new_signals-IsSignals}

-- No cell has two keys: topics share none, consumers share none, a topic shares none with a consumer,
-- and none is that of all publishes. Every cell is one of the heap.
pub record IsApart (s : Signals) : Type 0 where
  pub topics : IsSignals s
  pub consumers_apart : Distinct (λ (e : ℕ × ℕ). e.1) s.consumers
  pub consumers_bounded : (e : ℕ × ℕ) → Among e s.consumers → e.1 < length s.heap
  pub consumers_not_all : (e : ℕ × ℕ) → Among e s.consumers → e.1 ≢ s.all_publishes
  pub separate : (e : String × ℕ) (f : ℕ × ℕ) → Among e s.topics → Among f s.consumers → e.1 ≢ f.1

pub new_signals-IsApart : IsApart new_signals
new_signals-IsApart = record {
  topics = new_signals-IsSignals;
  consumers_apart = tt;
  consumers_bounded = λ e n. elim n [ ];
  consumers_not_all = λ e n. elim n [ ];
  separate = λ e f n. elim n [ ];
}

-- The live cell of a consumer.
abbrev pub live_consumer : ℕ → Signals → Option ℕ
live_consumer id s = upgrade (nat_eq id) s.consumers s.heap

-- Whoever listens keeps its cell and what it has seen there.
pub record Keeps (before after : Signals) : Type 0 where
  pub all_publishes : after.all_publishes ≡ before.all_publishes
  pub topics : (t : String) (a : ℕ) → live t before ≡ some a → live t after ≡ some a
  pub consumers : (id a : ℕ) → live_consumer id before ≡ some a → live_consumer id after ≡ some a
  pub generations :
      (a g : ℕ) → generation_at a before.heap ≡ some g → generation_at a after.heap ≡ some g

Keeps-refl : (s : Signals) → Keeps s s
Keeps-refl s = record {
  all_publishes = refl;
  topics = λ t a h. h;
  consumers = λ id a h. h;
  generations = λ a g h. h;
}

Keeps-trans : (r s t : Signals) → Keeps r s → Keeps s t → Keeps r t
Keeps-trans r s t p q = record {
  all_publishes = q.all_publishes ∙ p.all_publishes;
  topics = λ u a h. q.topics u a (p.topics u a h);
  consumers = λ id a h. q.consumers id a (p.consumers id a h);
  generations = λ a g h. q.generations a g (p.generations a g h);
}

bounded-grows :
    (a : ℕ) (heap more heap' : List Signal)
    → heap' ≡ heap ++ more
    → a < length heap
    → a < length heap'
bounded-grows a heap more heap' e h = omega (arith, ap length e, length-append heap more, h)

module _ (t : String) (s : Signals) (w : IsApart s) where
  abbrev joined : Registered String
  joined = signal_for_key text_eq s.topics t s.heap

  abbrev with_topic : Signals
  with_topic = record s { topics = joined.entries; heap = joined.heap }

  topic-Joins : Joins text_eq s.topics t s.heap joined
  topic-Joins = signal_for_key-Joins text_eq text_eq_iff s.topics t s.heap

  topic-Keeps : Keeps s with_topic
  topic-Keeps =
      let (more, e) = topic-Joins.grows in
      record {
        all_publishes = refl;
        topics = topic-Joins.kept;
        consumers = λ id a h.
            ap (upgrade (nat_eq id) s.consumers) e
            ∙ upgrade-append (nat_eq id) s.consumers s.heap more a h;
        generations = λ a g h. ap (generation_at a) e ∙ generation_at-append a g s.heap more h;
      }

  topic-IsApart : IsApart with_topic
  topic-IsApart =
      let (more, e) = topic-Joins.grows in
      let grow = λ (a : ℕ). bounded-grows a s.heap more joined.heap e in
      record {
        topics = record {
          apart = topic-Joins.apart w.topics.apart w.topics.bounded;
          not_all = λ x n. elim (topic-Joins.source x n) [
            | inl m ↦ w.topics.not_all x m
            | inr (new, longer) ↦ λ q. absurd (omega (arith, w.topics.all_bounded, new, q))
          ];
          bounded = λ x n. elim (topic-Joins.source x n) [
            | inl m ↦ grow x.1 (w.topics.bounded x m)
            | inr (new, longer) ↦ omega (arith, new, longer)
          ];
          all_bounded = grow s.all_publishes w.topics.all_bounded;
        };
        consumers_apart = w.consumers_apart;
        consumers_bounded = λ x n. grow x.1 (w.consumers_bounded x n);
        consumers_not_all = w.consumers_not_all;
        separate = λ x y n k. elim (topic-Joins.source x n) [
          | inl m ↦ w.separate x y m k
          | inr (new, longer) ↦ λ q. absurd (omega (arith, w.consumers_bounded y k, new, q))
        ];
      }

module _ (id : ℕ) (s : Signals) (w : IsApart s) where
  abbrev registered : Registered ℕ
  registered = signal_for_key nat_eq s.consumers id s.heap

  abbrev with_consumer : Signals
  with_consumer = record s { consumers = registered.entries; heap = registered.heap }

  consumer-Joins : Joins nat_eq s.consumers id s.heap registered
  unfolding nat_eq
  consumer-Joins = signal_for_key-Joins nat_eq ==_iff s.consumers id s.heap

  consumer-Keeps : Keeps s with_consumer
  consumer-Keeps =
      let (more, e) = consumer-Joins.grows in
      record {
        all_publishes = refl;
        topics = λ t a h.
            ap (upgrade (text_eq t) s.topics) e
            ∙ upgrade-append (text_eq t) s.topics s.heap more a h;
        consumers = consumer-Joins.kept;
        generations = λ a g h. ap (generation_at a) e ∙ generation_at-append a g s.heap more h;
      }

  consumer-IsApart : IsApart with_consumer
  consumer-IsApart =
      let (more, e) = consumer-Joins.grows in
      let grow = λ (a : ℕ). bounded-grows a s.heap more registered.heap e in
      record {
        topics = record {
          apart = w.topics.apart;
          not_all = w.topics.not_all;
          bounded = λ x n. grow x.1 (w.topics.bounded x n);
          all_bounded = grow s.all_publishes w.topics.all_bounded;
        };
        consumers_apart = consumer-Joins.apart w.consumers_apart w.consumers_bounded;
        consumers_bounded = λ x n. elim (consumer-Joins.source x n) [
          | inl m ↦ grow x.1 (w.consumers_bounded x m)
          | inr (new, longer) ↦ omega (arith, new, longer)
        ];
        consumers_not_all = λ x n. elim (consumer-Joins.source x n) [
          | inl m ↦ w.consumers_not_all x m
          | inr (new, longer) ↦ λ q. absurd (omega (arith, w.topics.all_bounded, new, q))
        ];
        separate = λ x y n k. elim (consumer-Joins.source y k) [
          | inl m ↦ w.separate x y n m
          | inr (new, longer) ↦ λ q. absurd (omega (arith, w.topics.bounded x n, new, q))
        ];
      }

-- What the opening of a handle with the filter, for the consumer `id`, makes of the registry: the handle
-- listens at `a` for publishes and at `b` for its consumer, and whoever listens keeps its cell.
pub record IsSubscribed (filter : Filter) (id a b : ℕ) (before after : Signals) : Type 0 where
  pub valid : IsApart after
  pub publishes : Listens filter a after
  pub consumer : live_consumer id after ≡ some b
  pub kept : Keeps before after

publishes_for-Keeps :
    (filter : Filter) (s : Signals)
    → IsApart s
    → IsApart (publishes_for filter s).1
      × Listens filter (publishes_for filter s).0 (publishes_for filter s).1
      × Keeps s (publishes_for filter s).1
unfolding publishes_for
publishes_for-Keeps all s w = (w, refl, Keeps-refl s)
publishes_for-Keeps (topic t) s w =
    (topic-IsApart t s w, (topic-Joins t s w).listens, topic-Keeps t s w)

consumer_signal_for-Keeps :
    (id : ℕ) (s : Signals)
    → IsApart s
    → IsApart (consumer_signal_for id s).1
      × (live_consumer id (consumer_signal_for id s).1 ≡ some (consumer_signal_for id s).0)
      × Keeps s (consumer_signal_for id s).1
unfolding consumer_signal_for
consumer_signal_for-Keeps id s w =
    (consumer-IsApart id s w, (consumer-Joins id s w).listens, consumer-Keeps id s w)

Listens-Keeps :
    (filter : Filter) (a : ℕ) (s t : Signals) → Keeps s t → Listens filter a s → Listens filter a t
Listens-Keeps all a s t k h = h ∙ sym k.all_publishes
Listens-Keeps (topic u) a s t k h = k.topics u a h

-- If no cell of the registry has two keys, to subscribe to the publishes of a filter and then to a
-- consumer keeps it so; the two answers are the cell of all publishes or the live cell of the topic,
-- and the live cell of the consumer; and every live cell stays that of its topic or consumer, with
-- its generation, so that subscribers of one topic or one consumer share it and none is orphaned.
pub consumer_signal_for-publishes_for :
    (filter : Filter) (id : ℕ) (s : Signals)
    → IsApart s
    → let first = publishes_for filter s in
      let second = consumer_signal_for id first.1 in
      IsSubscribed filter id first.0 second.0 s second.1
consumer_signal_for-publishes_for filter id s w =
    let (valid, listens, kept) = publishes_for-Keeps filter s w in
    let first = publishes_for filter s in
    let (valid', listens', kept') = consumer_signal_for-Keeps id first.1 valid in
    let second = consumer_signal_for id first.1 in
    record {
      valid = valid';
      publishes = Listens-Keeps filter first.0 first.1 second.1 kept' listens;
      consumer = listens';
      kept = Keeps-trans s first.1 second.1 kept kept';
    }
