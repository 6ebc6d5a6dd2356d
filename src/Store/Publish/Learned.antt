-- ===== src/Store/Publish/Learned.antt =====
-- What publishing one by one learns of the keys of a batch.
use litefan.Prelude.{
  ℕ, ◌+◌, ◌≤◌, ◌≡◌, refl, sym, ap, ◌∙◌, inl, inr, ◌⊎◌, Option, none, some, List, [], ◌∷◌, arith,
  bytes_eq, bytes_eq_iff, Among, Distinct, length, Bool-cases, Option-cases,
}
use litefan.Api.{Publish}
use litefan.Store.Publish.{Key, update_for}
use litefan.Store.Publish.OneByOne.{
  Known, known_key, learn, note, published_of, known_after, learned_of,
}
use litefan.Store.Publish.Keys.{bytes_eq_refl, or_else}

abbrev pub update_key : Key × ℕ → Key
update_key u = u.0

-- To learn a key that was unknown changes nothing that was known.
learn-known :
    (known : Known) (key : Option Key) (id : ℕ) (k : Key) (old : ℕ)
    → known_key known key ≡ none
    → known k ≡ some old
    → learn known key id k ≡ some old
learn-known known none id k old h e = e
learn-known known (some j) id k old h e = elim (Bool-cases (bytes_eq j k)) [
  | inl t ↦ let q : known j ≡ some old = ap known ((bytes_eq_iff j k).0 t) ∙ e in cc (h, q)
  | inr f ↦ rw f e
]

learn-none :
    (known : Known) (key : Option Key) (id : ℕ) (k : Key)
    → learn known key id k ≡ none
    → known k ≡ none
learn-none known none id k e = e
learn-none known (some j) id k e = elim (Bool-cases (bytes_eq j k)) [
  | inl t ↦ cc (rw t at e)
  | inr f ↦ rw f at e
]

learn-some :
    (known : Known) (key : Option Key) (id : ℕ) (k : Key) (old : ℕ)
    → learn known key id k ≡ some old
    → (key ≡ some k) ⊎ (known k ≡ some old)
learn-some known none id k old e = inr e
learn-some known (some j) id k old e = elim (Bool-cases (bytes_eq j k)) [
  | inl t ↦ inl (ap some ((bytes_eq_iff j k).0 t))
  | inr f ↦ inr (rw f at e)
]

pub learn_self : (known : Known) (k : Key) (id : ℕ) → learn known (some k) id k ≡ some id
learn_self known k id = rw (bytes_eq_refl k) refl

Among-note :
    (key : Option Key) (id : ℕ) (us : List (Key × ℕ)) (u : Key × ℕ)
    → Among u (note key id us)
    → ((key ≡ some u.0) × (u.1 ≡ id)) ⊎ Among u us
Among-note none id us u n = inr n
Among-note (some k) id us u (inl e) =
    inl (ap (λ (x : Key × ℕ). some x.0) (sym e), ap (λ (x : Key × ℕ). x.1) e)
Among-note (some k) id us u (inr n) = inr n

Among-note_tail :
    (key : Option Key) (id : ℕ) (us : List (Key × ℕ)) (u : Key × ℕ)
    → Among u us
    → Among u (note key id us)
Among-note_tail none id us u n = n
Among-note_tail (some k) id us u n = inr n

pub learned_of-unknown :
    (known : Known) (seq : ℕ) (ms : List Publish) (u : Key × ℕ)
    → Among u (learned_of known seq ms)
    → known u.0 ≡ none
unfolding learned_of
learned_of-unknown known seq [] u n = elim n [ ]
learned_of-unknown known seq (m ∷ ms) u n =
    elim (Option-cases (known_key known m.idempotency_key)) [
      | inr (id, e) ↦ learned_of-unknown known seq ms u (rw (e, learned_of) at n)
      | inl e ↦ elim (Among-note m.idempotency_key (seq + 1) _ u (rw (e, learned_of) at n)) [
        | inl (q, i) ↦ ap (known_key known) (sym q) ∙ e
        | inr k ↦
            learn-none known m.idempotency_key (seq + 1) u.0
              (learned_of-unknown (learn known m.idempotency_key (seq + 1)) (seq + 1) ms u k)
      ]
    ]

Distinct-note :
    (known : Known) (key : Option Key) (id : ℕ) (us : List (Key × ℕ))
    → ((u : Key × ℕ) → Among u us → learn known key id u.0 ≡ none)
    → Distinct update_key us
    → Distinct update_key (note key id us)
Distinct-note known none id us h d = d
Distinct-note known (some k) id us h d = (
  λ u n e.
      let q : learn known (some k) id k ≡ none = ap (learn known (some k) id) e ∙ h u n in
      cc (q, learn_self known k id),
  d,
)

pub learned_of-asked :
    (known : Known) (seq : ℕ) (ms : List Publish) (u : Key × ℕ)
    → Among u (learned_of known seq ms)
    → (m : Publish) × Among m ms × (m.idempotency_key ≡ some u.0)
unfolding learned_of
learned_of-asked known seq [] u n = elim n [ ]
learned_of-asked known seq (m ∷ ms) u n = elim (Option-cases (known_key known m.idempotency_key)) [
  | inr (id, e) ↦
      let r = learned_of-asked known seq ms u (rw (e, learned_of) at n) in (r.0, inr r.1, r.2)
  | inl e ↦ elim (Among-note m.idempotency_key (seq + 1) _ u (rw (e, learned_of) at n)) [
    | inl (q, i) ↦ (m, inl refl, q)
    | inr k ↦
        let r = learned_of-asked (learn known m.idempotency_key (seq + 1)) (seq + 1) ms u k in
        (r.0, inr r.1, r.2)
  ]
]

pub learned_of-Distinct :
    (known : Known) (seq : ℕ) (ms : List Publish) → Distinct update_key (learned_of known seq ms)
unfolding learned_of
learned_of-Distinct known seq [] = tt
learned_of-Distinct known seq (m ∷ ms) = elim (Option-cases (known_key known m.idempotency_key)) [
  | inr (id, e) ↦ rw (e, learned_of) (learned_of-Distinct known seq ms)
  | inl e ↦
      rw (e, learned_of)
        (Distinct-note known m.idempotency_key (seq + 1) _
          (learned_of-unknown (learn known m.idempotency_key (seq + 1)) (seq + 1) ms)
          (learned_of-Distinct (learn known m.idempotency_key (seq + 1)) (seq + 1) ms))
]

pub learned_of-bounds :
    (known : Known) (seq : ℕ) (ms : List Publish) (u : Key × ℕ)
    → Among u (learned_of known seq ms)
    → u.1 ≤ seq + length (published_of known seq ms)
unfolding learned_of published_of
learned_of-bounds known seq [] u n = elim n [ ]
learned_of-bounds known seq (m ∷ ms) u n = elim (Option-cases (known_key known m.idempotency_key)) [
  | inr (id, e) ↦ rw (e, published_of) (learned_of-bounds known seq ms u (rw (e, learned_of) at n))
  | inl e ↦ elim (Among-note m.idempotency_key (seq + 1) _ u (rw (e, learned_of) at n)) [
    | inl (q, i) ↦ rw (e, published_of) (omega (arith, i))
    | inr k ↦
        rw (e, published_of)
          (omega
            (arith, learned_of-bounds (learn known m.idempotency_key (seq + 1)) (seq + 1) ms u k))
  ]
]

pub known_after-known :
    (known : Known) (seq : ℕ) (ms : List Publish) (k : Key) (id : ℕ)
    → known k ≡ some id
    → known_after known seq ms k ≡ some id
unfolding known_after
known_after-known known seq [] k id h = h
known_after-known known seq (m ∷ ms) k id h =
    elim (Option-cases (known_key known m.idempotency_key)) [
      | inr (old, e) ↦ rw (e, known_after) (known_after-known known seq ms k id h)
      | inl e ↦
          rw (e, known_after)
            (known_after-known (learn known m.idempotency_key (seq + 1)) (seq + 1) ms k id
              (learn-known known m.idempotency_key (seq + 1) k id e h))
    ]

or_else-none : (o : Option ℕ) → o ≡ or_else o none
or_else-none none = refl
or_else-none (some a) = refl

learn-note :
    (known : Known) (key : Option Key) (id : ℕ) (k : Key)
    → known_key known key ≡ none
    → (us : List (Key × ℕ))
    → or_else (learn known key id k) (update_for k us)
      ≡ or_else (known k) (update_for k (note key id us))
unfolding update_for
learn-note known none id k e us = refl
learn-note known (some j) id k e us = elim (Bool-cases (bytes_eq j k)) [
  | inl t ↦ let q : known k ≡ none = ap known (sym ((bytes_eq_iff j k).0 t)) ∙ e in rw (t, q) refl
  | inr f ↦ rw f refl
]

-- What is known after the batch was known before, or was learned.
pub known_after_lem :
    (known : Known) (seq : ℕ) (ms : List Publish) (k : Key)
    → known_after known seq ms k ≡ or_else (known k) (update_for k (learned_of known seq ms))
unfolding learned_of known_after update_for
known_after_lem known seq [] k = or_else-none (known k)
known_after_lem known seq (m ∷ ms) k = elim (Option-cases (known_key known m.idempotency_key)) [
  | inr (old, e) ↦ rw (e, known_after, learned_of) (known_after_lem known seq ms k)
  | inl e ↦
      rw (e, known_after, learned_of)
        (known_after_lem (learn known m.idempotency_key (seq + 1)) (seq + 1) ms k
          ∙ learn-note known m.idempotency_key (seq + 1) k e _)
]

-- After the batch each of its keys is known.
pub learned-all :
    (known : Known) (seq : ℕ) (ms : List Publish) (m : Publish) (k : Key)
    → Among m ms
    → m.idempotency_key ≡ some k
    → ((id : ℕ) × (known k ≡ some id)) ⊎ ((id : ℕ) × Among (k, id) (learned_of known seq ms))
unfolding learned_of
learned-all known seq [] m k n e = elim n [ ]
learned-all known seq (p ∷ ps) m k n e = elim (Option-cases (known_key known p.idempotency_key)) [
  | inr (old, q) ↦ elim n [
    | inl same ↦
        let mine : p.idempotency_key ≡ some k =
          ap (λ (x : Publish). x.idempotency_key) (sym same) ∙ e in
        inl (old, ap (known_key known) (sym mine) ∙ q)
    | inr rest ↦ rw (q, learned_of) (learned-all known seq ps m k rest e)
  ]
  | inl q ↦ elim n [
    | inl same ↦
        let mine : p.idempotency_key ≡ some k =
          ap (λ (x : Publish). x.idempotency_key) (sym same) ∙ e in
        inr (seq + 1, rw (q, learned_of, mine) (inl refl))
    | inr rest ↦
        elim (learned-all (learn known p.idempotency_key (seq + 1)) (seq + 1) ps m k rest e) [
          | inl (old, l) ↦ elim (learn-some known p.idempotency_key (seq + 1) k old l) [
            | inl mine ↦ inr (seq + 1, rw (q, learned_of, mine) (inl refl))
            | inr before ↦ inl (old, before)
          ]
          | inr (id, l) ↦
              inr (id, rw (q, learned_of) (Among-note_tail p.idempotency_key (seq + 1) _ (k, id) l))
        ]
  ]
]
