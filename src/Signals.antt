-- ===== src/Signals.antt =====
-- src/signals.rs: in-process wakeups. `Arc<Signal>` is the address of a cell of the heap, and a
-- `Weak` entry of a registry is an address whose cell may be dead: `upgrade` fails on it.
pub mod Wakeups
pub mod Subscribing
pub mod Joining
pub mod Sharing
use litefan.Prelude.{
  ℕ, zero, suc, ◌+◌, ◌%◌, String, Bool, true, false, not, Option, none, some, List, [], ◌∷◌, ◌++◌,
  ◌==◌, text_eq, if◌then◌else◌, length, select,
}
use litefan.Api.{Filter, all, topic}
use litefan.Time.{u64_mod}

pub record Signal : Type 0 where
  pub generation : ℕ
  pub alive : Bool

abbrev pub new_signal : Signal
new_signal = record { generation = 0; alive = true }

pub record Signals : Type 0 where
  pub heap : List Signal
  pub all_publishes : ℕ
  pub topics : List (String × ℕ)
  pub consumers : List (ℕ × ℕ)

abbrev pub new_signals : Signals
new_signals = record { heap = new_signal ∷ []; all_publishes = 0; topics = []; consumers = [] }

abbrev bump : Signal → Signal
bump s = record s { generation = (s.generation + 1) % u64_mod }

-- `send_modify(|generation| *generation = generation.wrapping_add(1))`
unfoldable pub notify : ℕ → List Signal → List Signal
notify address [] = []
notify zero (s ∷ heap) = bump s ∷ heap
notify (suc address) (s ∷ heap) = s ∷ notify address heap

abbrev pub generation_at : ℕ → List Signal → Option ℕ
generation_at address [] = none
generation_at zero (s ∷ heap) = some s.generation
generation_at (suc address) (s ∷ heap) = generation_at address heap

abbrev pub alive_at : ℕ → List Signal → Bool
alive_at address [] = false
alive_at zero (s ∷ heap) = s.alive
alive_at (suc address) (s ∷ heap) = alive_at address heap

-- `HashMap::get` followed by `Weak::upgrade`
abbrev pub upgrade {ℓ} : {K : Type ℓ} → (K → Bool) → List (K × ℕ) → List Signal → Option ℕ
upgrade is_key [] heap = none
upgrade is_key ((k, address) ∷ entries) heap =
    if is_key k
    then (if alive_at address heap then some address else none)
    else upgrade is_key entries heap

-- `HashMap::remove`
abbrev pub remove {ℓ} : {K : Type ℓ} → (K → Bool) → List (K × ℕ) → List (K × ℕ)
remove is_key entries = select (λ e. not (is_key e.0)) entries

-- `HashMap::insert`
abbrev pub insert {ℓ} : {K : Type ℓ} → (K → K → Bool) → K → ℕ → List (K × ℕ) → List (K × ℕ)
insert eq key address entries = (key, address) ∷ remove (eq key) entries

pub record Registered {ℓ} (K : Type ℓ) : Type ℓ where
  pub signal : ℕ
  pub entries : List (K × ℕ)
  pub heap : List Signal

unfoldable pub signal_for_key {ℓ} :
    {K : Type ℓ} → (K → K → Bool) → List (K × ℕ) → K → List Signal → Registered K
signal_for_key eq entries key heap = elim (upgrade (eq key) entries heap) [
  | some signal ↦ record { signal = signal; entries = entries; heap = heap }
  | none ↦ record {
    signal = length heap;
    entries = insert eq key (length heap) entries;
    heap = heap ++ new_signal ∷ [];
  }
]

unfoldable pub publishes_for : Filter → Signals → ℕ × Signals
unfolding signal_for_key
publishes_for all s = (s.all_publishes, s)
publishes_for (topic t) s =
    let r = signal_for_key text_eq s.topics t s.heap in
    (r.signal, record s { topics = r.entries; heap = r.heap })

pub nat_eq : ℕ → ℕ → Bool
nat_eq a b = a == b

unfoldable pub consumer_signal_for : ℕ → Signals → ℕ × Signals
unfolding signal_for_key nat_eq
consumer_signal_for id s =
    let r = signal_for_key nat_eq s.consumers id s.heap in
    (r.signal, record s { consumers = r.entries; heap = r.heap })

-- `into_iter().flatten().collect::<HashSet<_>>()`, each topic once.
unfoldable pub distinct_topics : List (Option String) → List String
distinct_topics [] = []
distinct_topics (none ∷ ts) = distinct_topics ts
distinct_topics (some t ∷ ts) = t ∷ select (λ u. not (text_eq t u)) (distinct_topics ts)

unfoldable pub notify_topic : String → Signals → Signals
unfolding notify
notify_topic t s = elim (upgrade (text_eq t) s.topics s.heap) [
  | some signal ↦ record s { heap = notify signal s.heap }
  | none ↦ record s { topics = remove (text_eq t) s.topics }
]

unfoldable pub notify_topics : List String → Signals → Signals
unfolding notify_topic
notify_topics [] s = s
notify_topics (t ∷ ts) s = notify_topics ts (notify_topic t s)

unfoldable pub notify_publishes : List (Option String) → Signals → Signals
unfolding notify notify_topics distinct_topics
notify_publishes topics s =
    notify_topics (distinct_topics topics) (record s { heap = notify s.all_publishes s.heap })

unfoldable pub notify_consumer : ℕ → Signals → Signals
unfolding notify nat_eq
notify_consumer id s = elim (upgrade (nat_eq id) s.consumers s.heap) [
  | some signal ↦ record s { heap = notify signal s.heap }
  | none ↦ record s { consumers = remove (nat_eq id) s.consumers }
]
