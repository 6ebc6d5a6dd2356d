-- ===== src/Signals/Joining.antt =====
-- `signal_for_key` of src/signals.rs: a live cell is shared, and no key loses one.
use litefan.Prelude.{
  ℕ, zero, suc, ◌<◌, ◌≡◌, ◌⊎◌, ◌↔◌, refl, sym, ap, ◌∙◌, inl, inr, Bool, true, not, none, some, List,
  [], ◌∷◌, ◌++◌, arith, Among, Among-select_inv, length, length-append, Distinct, Distinct-select,
  Bool-cases, Option-cases,
}
use litefan.Signals.{
  Signal, Registered, new_signal, generation_at, alive_at, upgrade, remove, insert, signal_for_key,
}
use litefan.Signals.Wakeups.{upgrade-remove}
use litefan.Signals.Subscribing.{alive_at-new}

alive_at-append :
    (a : ℕ) (heap more : List Signal) → alive_at a heap ≡ true → alive_at a (heap ++ more) ≡ true
alive_at-append a [] more h = cc h
alive_at-append zero (s ∷ heap) more h = h
alive_at-append (suc a) (s ∷ heap) more h = alive_at-append a heap more h

pub generation_at-append :
    (a g : ℕ) (heap more : List Signal)
    → generation_at a heap ≡ some g
    → generation_at a (heap ++ more) ≡ some g
generation_at-append a g [] more h = cc h
generation_at-append zero g (s ∷ heap) more h = h
generation_at-append (suc a) g (s ∷ heap) more h = generation_at-append a g heap more h

whole : (heap : List Signal) → heap ≡ heap ++ []
whole [] = refl
whole (s ∷ heap) = ap (λ xs. s ∷ xs) (whole heap)

module _ {ℓ} {K : Type ℓ} where
  -- A live cell stays live in a heap that grows.
  pub upgrade-append :
      (is_key : K → Bool) (entries : List (K × ℕ)) (heap more : List Signal) (a : ℕ)
      → upgrade is_key entries heap ≡ some a
      → upgrade is_key entries (heap ++ more) ≡ some a
  upgrade-append is_key [] heap more a h = cc h
  upgrade-append is_key ((k, b) ∷ entries) heap more a h = elim (Bool-cases (is_key k)) [
    | inr f ↦ rw f (upgrade-append is_key entries heap more a (rw f at h))
    | inl t ↦ elim (Bool-cases (alive_at b heap)) [
      | inr g ↦ cc (rw (t, g) at h)
      | inl g ↦ let later = alive_at-append b heap more g in rw (t, later) (rw (t, g) at h)
    ]
  ]

  -- What `signal_for_key` makes of a registry: the key has the cell, every key keeps its live cell, a
  -- new entry has a new cell, and cells are only added.
  pub record Joins (eq : K → K → Bool) (entries : List (K × ℕ)) (key : K) (heap : List Signal)
      (r : Registered K) : Type ℓ where
    pub listens : upgrade (eq key) r.entries r.heap ≡ some r.signal
    pub kept :
        (k : K) (a : ℕ)
        → upgrade (eq k) entries heap ≡ some a
        → upgrade (eq k) r.entries r.heap ≡ some a
    pub source :
        (e : K × ℕ)
        → Among e r.entries
        → Among e entries ⊎ ((e.1 ≡ length heap) × (length heap < length r.heap))
    pub apart :
        Distinct (λ (e : K × ℕ). e.1) entries
        → ((e : K × ℕ) → Among e entries → e.1 < length heap)
        → Distinct (λ (e : K × ℕ). e.1) r.entries
    pub grows : (more : List Signal) × (r.heap ≡ heap ++ more)

  module _ (eq : K → K → Bool) (eq_iff : (a b : K) → (eq a b ≡ true) ↔ (a ≡ b)) where
    kept-insert :
        (entries : List (K × ℕ)) (key : K) (heap : List Signal) (k : K) (a : ℕ)
        → upgrade (eq key) entries heap ≡ none
        → upgrade (eq k) entries heap ≡ some a
        → upgrade (eq k) (insert eq key (length heap) entries) (heap ++ new_signal ∷ []) ≡ some a
    kept-insert entries key heap k a gone h = elim (Bool-cases (eq k key)) [
      | inl t ↦
          let same : k ≡ key = (eq_iff k key).0 t in
          cc (gone, h, ap (λ x. upgrade (eq x) entries heap) same)
      | inr f ↦ rw f (
          upgrade-remove (eq k) (eq key) entries (heap ++ new_signal ∷ []) (λ x mine.
            elim (Bool-cases (eq key x)) [
              | inr g ↦ g
              | inl g ↦ cc ((eq_iff k key).1 ((eq_iff k x).0 mine ∙ sym ((eq_iff key x).0 g)), f)
            ])
          ∙ upgrade-append (eq k) entries heap (new_signal ∷ []) a h)
    ]

    pub signal_for_key-Joins :
        (entries : List (K × ℕ)) (key : K) (heap : List Signal)
        → Joins eq entries key heap (signal_for_key eq entries key heap)
    unfolding signal_for_key
    signal_for_key-Joins entries key heap = elim (Option-cases (upgrade (eq key) entries heap)) [
      | inr (a, e) ↦
          rw (e, signal_for_key)
            (record {
              listens = e;
              kept = λ k b h. h;
              source = λ x n. inl n;
              apart = λ d below. d;
              grows = ([], whole heap);
            })
      | inl e ↦
          let own : eq key key ≡ true = (eq_iff key key).1 refl in
          let lives = alive_at-new heap in
          let longer = length-append heap (new_signal ∷ []) in
          let old = λ (x : K × ℕ) (n : Among x (remove (eq key) entries)).
            (Among-select_inv (λ (y : K × ℕ). not (eq key y.0)) x entries n).0 in
          rw (e, signal_for_key)
            (record {
              listens = rw (own, lives) refl;
              kept = λ k a h. kept-insert entries key heap k a e h;
              source = λ x n. elim n [
                | inl q ↦ inr (ap (λ (y : K × ℕ). y.1) q, omega (arith, longer))
                | inr m ↦ inl (old x m)
              ];
              apart = λ d below. (
                λ x n q. absurd (omega (arith, below x (old x n), q)),
                Distinct-select (λ (y : K × ℕ). y.1) (λ (y : K × ℕ). not (eq key y.0)) entries d,
              );
              grows = (new_signal ∷ [], refl);
            })
    ]
