-- ===== src/Signals/Subscribing.antt =====
-- The registry of src/signals.rs: subscribers of one topic share a cell, and topics share none.
use litefan.Prelude.{
  ℕ, zero, suc, ◌<◌, ◌≡◌, ◌≢◌, refl, sym, ap, ◌∙◌, true, some, List, [], ◌∷◌, ◌++◌, arith, String,
  text_eq, text_eq_iff, Among, length, Distinct, Distinct-eq,
}
use litefan.Api.{Filter, all, topic}
use litefan.Signals.{Signal, Signals, new_signal, new_signals, generation_at, alive_at}
use litefan.Signals.Wakeups.{live, upgrade-Among}

-- No two topics share a cell, none has that of all publishes, and every cell is one of the heap.
pub record IsSignals (s : Signals) : Type 0 where
  pub apart : Distinct (λ (e : String × ℕ). e.1) s.topics
  pub not_all : (e : String × ℕ) → Among e s.topics → e.1 ≢ s.all_publishes
  pub bounded : (e : String × ℕ) → Among e s.topics → e.1 < length s.heap
  pub all_bounded : s.all_publishes < length s.heap

pub new_signals-IsSignals : IsSignals new_signals
new_signals-IsSignals = record {
  apart = tt;
  not_all = λ e n. elim n [ ];
  bounded = λ e n. elim n [ ];
  all_bounded = omega arith;
}

-- The address `a` is the cell of a subscriber with the filter.
abbrev pub Listens : Filter → ℕ → Signals → Type 0
Listens all a s = a ≡ s.all_publishes
Listens (topic t) a s = live t s ≡ some a

pub alive_at-new : (heap : List Signal) → alive_at (length heap) (heap ++ new_signal ∷ []) ≡ true
alive_at-new [] = refl
alive_at-new (s ∷ heap) = alive_at-new heap

pub generation_at-bounded :
    (a : ℕ) (heap : List Signal) → a < length heap → (g : ℕ) × (generation_at a heap ≡ some g)
generation_at-bounded a [] h = absurd (omega (arith, h))
generation_at-bounded zero (s ∷ heap) h = (s.generation, refl)
generation_at-bounded (suc a) (s ∷ heap) h = generation_at-bounded a heap (omega (arith, h))

pub Listens-bounded :
    (filter : Filter) (a : ℕ) (s : Signals) → IsSignals s → Listens filter a s → a < length s.heap
Listens-bounded all a s w h = omega (arith, w.all_bounded, h)
Listens-bounded (topic t) a s w h =
    let (k, among, mine) = upgrade-Among (text_eq t) s.topics s.heap a h in w.bounded (k, a) among

-- Two topics with live cells have different ones.
pub live-apart :
    (t u : String) (a : ℕ) (s : Signals)
    → IsSignals s
    → live t s ≡ some a
    → u ≢ t
    → live u s ≢ some a
live-apart t u a s w h differs k =
    let (x, m, mine) = upgrade-Among (text_eq t) s.topics s.heap a h in
    let (y, n, yours) = upgrade-Among (text_eq u) s.topics s.heap a k in
    let same = Distinct-eq (λ (e : String × ℕ). e.1) s.topics (x, a) (y, a) w.apart m n refl in
    differs (
      (text_eq_iff u y).0 yours
      ∙ ap (λ (e : String × ℕ). e.0) (sym same)
      ∙ sym ((text_eq_iff t x).0 mine))
