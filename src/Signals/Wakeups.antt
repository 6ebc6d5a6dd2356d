-- ===== src/Signals/Wakeups.antt =====
-- Wakeups of src/signals.rs: a publish changes the generation that a matching subscriber has seen.
use litefan.Prelude.{
  ℕ, zero, suc, ◌+◌, ◌%◌, ◌≡◌, ◌≢◌, refl, sym, ap, ◌∙◌, inl, inr, Bool, true, false, Option, none,
  some, List, [], ◌∷◌, arith, String, ◌==◌, ==_iff, text_eq, text_eq_iff, if◌then◌else◌, Among,
  Distinct, Bool-cases, Option-cases,
}
use litefan.Time.{u64_mod}
use litefan.Signals.{
  Signal, Signals, generation_at, alive_at, upgrade, remove, notify, notify_topic, notify_topics,
}

abbrev pub bumped : Option ℕ → Option ℕ
bumped none = none
bumped (some g) = some ((g + 1) % u64_mod)

pub generation-notify :
    (a b : ℕ) (heap : List Signal)
    → generation_at a (notify b heap)
      ≡ (if a == b then bumped (generation_at a heap) else generation_at a heap)
unfolding notify
generation-notify a b [] = ground arith
generation-notify zero zero (s ∷ heap) = ground arith
generation-notify zero (suc b) (s ∷ heap) = ground arith
generation-notify (suc a) zero (s ∷ heap) = ground arith
generation-notify (suc a) (suc b) (s ∷ heap) = ground (arith, generation-notify a b heap)

alive-notify : (a b : ℕ) (heap : List Signal) → alive_at a (notify b heap) ≡ alive_at a heap
unfolding notify
alive-notify a b [] = refl
alive-notify zero zero (s ∷ heap) = refl
alive-notify zero (suc b) (s ∷ heap) = refl
alive-notify (suc a) zero (s ∷ heap) = refl
alive-notify (suc a) (suc b) (s ∷ heap) = alive-notify a b heap

module _ {ℓ} {K : Type ℓ} (is_key : K → Bool) where
  pub upgrade-notify :
      (b : ℕ) (entries : List (K × ℕ)) (heap : List Signal)
      → upgrade is_key entries (notify b heap) ≡ upgrade is_key entries heap
  upgrade-notify b [] heap = refl
  upgrade-notify b ((k, a) ∷ entries) heap =
      rw (alive-notify a b heap, upgrade-notify b entries heap) refl

  pub upgrade-remove :
      (is_other : K → Bool) (entries : List (K × ℕ)) (heap : List Signal)
      → ((k : K) → is_key k ≡ true → is_other k ≡ false)
      → upgrade is_key (remove is_other entries) heap ≡ upgrade is_key entries heap
  upgrade-remove is_other [] heap h = refl
  upgrade-remove is_other ((k, a) ∷ entries) heap h = elim (Bool-cases (is_key k)) [
    | inl t ↦ let f = h k t in rw (f, t) refl
    | inr f ↦ elim (Bool-cases (is_other k)) [
      | inl t ↦ rw (t, f) (upgrade-remove is_other entries heap h)
      | inr g ↦ rw (g, f) (upgrade-remove is_other entries heap h)
    ]
  ]

  pub upgrade-Among :
      (entries : List (K × ℕ)) (heap : List Signal) (a : ℕ)
      → upgrade is_key entries heap ≡ some a
      → (k : K) × Among (k, a) entries × (is_key k ≡ true)
  upgrade-Among [] heap a h = absurd (cc)
  upgrade-Among ((k, b) ∷ entries) heap a h = elim (Bool-cases (is_key k)) [
    | inr f ↦ let r = upgrade-Among entries heap a (rw f at h) in (r.0, inr r.1, r.2)
    | inl t ↦ elim (Bool-cases (alive_at b heap)) [
      | inr g ↦ cc (rw (t, g) at h)
      | inl g ↦ let e : b ≡ a = cc (rw (t, g) at h) in (k, inl (λ i. (k, (sym e) i)), t)
    ]
  ]

abbrev pub live : String → Signals → Option ℕ
live t s = upgrade (text_eq t) s.topics s.heap

pub live-other : (t u : String) (s : Signals) → t ≢ u → live t (notify_topic u s) ≡ live t s
unfolding notify_topic
live-other t u s h = elim (Option-cases (live u s)) [
  | inr (b, e) ↦ rw (e, notify_topic) (upgrade-notify (text_eq t) b s.topics s.heap)
  | inl e ↦
      rw (e, notify_topic)
        (upgrade-remove (text_eq t) (text_eq u) s.topics s.heap (λ k mine.
          elim (Bool-cases (text_eq u k)) [
            | inr f ↦ f
            | inl g ↦ absurd (h ((text_eq_iff t k).0 mine ∙ sym ((text_eq_iff u k).0 g)))
          ]))
]

generation-topic :
    (a : ℕ) (u : String) (s : Signals)
    → live u s ≢ some a
    → generation_at a (notify_topic u s).heap ≡ generation_at a s.heap
unfolding notify_topic
generation-topic a u s h = elim (Option-cases (live u s)) [
  | inl e ↦ rw (e, notify_topic) refl
  | inr (b, e) ↦ elim (Bool-cases (a == b)) [
    | inl t ↦ absurd (h (e ∙ ap some (sym ((==_iff a b).0 t))))
    | inr f ↦ let g = generation-notify a b s.heap in rw (e, notify_topic, g, f) refl
  ]
]

generation-own_topic :
    (a : ℕ) (t : String) (s : Signals)
    → live t s ≡ some a
    → generation_at a (notify_topic t s).heap ≡ bumped (generation_at a s.heap)
unfolding notify_topic
generation-own_topic a t s e =
    let g = generation-notify a a s.heap in
    let same : (a == a) ≡ true = (==_iff a a).1 refl in rw (e, notify_topic, g, same) refl

abbrev pub name_key : String → String
name_key t = t

pub generation-others :
    (a : ℕ) (ts : List String) (s : Signals)
    → Distinct name_key ts
    → ((u : String) → Among u ts → live u s ≢ some a)
    → generation_at a (notify_topics ts s).heap ≡ generation_at a s.heap
unfolding notify_topics
generation-others a [] s d h = refl
generation-others a (u ∷ ts) s d h =
    generation-others a ts (notify_topic u s) d.1
      (λ v n e. h v (inr n) (sym (live-other v u s (λ q. d.0 v n (sym q))) ∙ e))
    ∙ generation-topic a u s (h u (inl refl))

pub generation-topics :
    (a : ℕ) (t : String) (ts : List String) (s : Signals)
    → Distinct name_key ts
    → Among t ts
    → live t s ≡ some a
    → ((u : String) → Among u ts → u ≢ t → live u s ≢ some a)
    → generation_at a (notify_topics ts s).heap ≡ bumped (generation_at a s.heap)
unfolding notify_topics
generation-topics a t [] s d n e h = elim n [ ]
generation-topics a t (u ∷ ts) s d n e h = elim (Bool-cases (text_eq u t)) [
  | inl same ↦
      let q : u ≡ t = (text_eq_iff u t).0 same in
      generation-others a ts (notify_topic u s) d.1 (λ v m k.
        h v (inr m) (λ r. d.0 v m (q ∙ sym r)) (sym (live-other v u s (λ r. d.0 v m (sym r))) ∙ k))
      ∙ generation-own_topic a u s (ap (λ x. live x s) q ∙ e)
  | inr other ↦
      let differs : u ≢ t = λ q. cc ((text_eq_iff u t).1 q, other) in
      let rest : Among t ts = elim n [ inl q ↦ absurd (differs (sym q)) | inr m ↦ m ] in
      generation-topics a t ts (notify_topic u s) d.1 rest
        (live-other t u s (λ q. differs (sym q)) ∙ e)
        (λ v m r k. h v (inr m) r (sym (live-other v u s (λ q. d.0 v m (sym q))) ∙ k))
      ∙ ap bumped (generation-topic a u s (h u (inl refl) differs))
]

pub bumped-differs : (g : ℕ) → bumped (some g) ≢ some g
bumped-differs g e = let q : (g + 1) % u64_mod ≡ g = cc e in omega (arith, q)
