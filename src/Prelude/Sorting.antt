-- ===== src/Prelude/Sorting.antt =====
-- `sort_unstable_by_key`: insertion sort by a key. Where the keys differ, what it returns does not
-- depend on the order in which the rows come.
use Prim.Native.Nat.{ℕ, suc, ◌<◌}
use mathlib.Core.Path.{◌≡◌, refl, ap, sym, ◌∙◌}
use mathlib.Core.Logic.{◌≢◌, inl, inr}
use mathlib.Core.List.{List, [], ◌∷◌, Permᴰ}
use mathlib.Core.List.Permᴰ
use native.Mathlib.Omega.{arith}
use litefan.Prelude.Tests.{leb, if◌then◌else◌, Bool-cases}
use litefan.Prelude.Lists.{length, Among}
use litefan.Prelude.Rows.{Distinct}

module _ {ℓ} {A : Type ℓ} where
  unfoldable pub insert_by : (A → ℕ) → A → List A → List A
  insert_by key a [] = a ∷ []
  insert_by key a (x ∷ xs) = if leb (key a) (key x) then a ∷ x ∷ xs else x ∷ insert_by key a xs

  unfoldable pub sort_by : (A → ℕ) → List A → List A
  unfolding insert_by
  sort_by key [] = []
  sort_by key (x ∷ xs) = insert_by key x (sort_by key xs)

  -- The keys rise strictly along the list.
  abbrev pub Ascending : (A → ℕ) → List A → Type ℓ
  Ascending key [] = Unit
  Ascending key (x ∷ xs) = ((a : A) → Among a xs → key x < key a) × Ascending key xs

  pub Among-insert_by :
      (key : A → ℕ) (a b : A) (xs : List A) → Among b (insert_by key a xs) → Among b (a ∷ xs)
  unfolding insert_by
  Among-insert_by key a b [] m = m
  Among-insert_by key a b (x ∷ xs) m = ground (arith, Among-insert_by key a b xs)

  Among-insert_by_back :
      (key : A → ℕ) (a b : A) (xs : List A) → Among b (a ∷ xs) → Among b (insert_by key a xs)
  unfolding insert_by
  Among-insert_by_back key a b [] m = m
  Among-insert_by_back key a b (x ∷ xs) m = ground (arith, Among-insert_by_back key a b xs)

  pub Among-sort_by : (key : A → ℕ) (b : A) (xs : List A) → Among b (sort_by key xs) → Among b xs
  unfolding sort_by
  Among-sort_by key b [] m = m
  Among-sort_by key b (x ∷ xs) m = elim (Among-insert_by key x b (sort_by key xs) m) [
    | inl e ↦ inl e
    | inr n ↦ inr (Among-sort_by key b xs n)
  ]

  pub Among-sort_by_back :
      (key : A → ℕ) (b : A) (xs : List A) → Among b xs → Among b (sort_by key xs)
  unfolding sort_by
  Among-sort_by_back key b [] m = m
  Among-sort_by_back key b (x ∷ xs) (inl e) = Among-insert_by_back key x b (sort_by key xs) (inl e)
  Among-sort_by_back key b (x ∷ xs) (inr m) =
      Among-insert_by_back key x b (sort_by key xs) (inr (Among-sort_by_back key b xs m))

  length-insert_by :
      (key : A → ℕ) (a : A) (xs : List A) → length (insert_by key a xs) ≡ suc (length xs)
  unfolding insert_by
  length-insert_by key a [] = refl
  length-insert_by key a (x ∷ xs) = ground (arith, length-insert_by key a xs)

  pub length-sort_by : (key : A → ℕ) (xs : List A) → length (sort_by key xs) ≡ length xs
  unfolding sort_by
  length-sort_by key [] = refl
  length-sort_by key (x ∷ xs) =
      length-insert_by key x (sort_by key xs) ∙ ap suc (length-sort_by key xs)

  insert_by-Ascending :
      (key : A → ℕ) (a : A) (xs : List A)
      → Ascending key xs
      → ((b : A) → Among b xs → key a ≢ key b)
      → Ascending key (insert_by key a xs)
  unfolding insert_by
  insert_by-Ascending key a [] s h = (λ b m. elim m [ ], tt)
  insert_by-Ascending key a (x ∷ xs) s h = elim (Bool-cases (leb (key a) (key x))) [
    | inl t ↦ rw t (
      λ b m. elim m [
        | inl e ↦ ground (arith, h x (inl refl), ap key e)
        | inr n ↦ ground (arith, h x (inl refl), s.0 b n)
      ],
      s,
    )
    | inr f ↦ rw f (
      λ b m. elim (Among-insert_by key a b xs m) [
        | inl e ↦ ground (arith, ap key e)
        | inr n ↦ s.0 b n
      ],
      insert_by-Ascending key a xs s.1 (λ b m. h b (inr m)),
    )
  ]

  -- Sorted by distinct keys, the keys rise strictly.
  pub sort_by-Ascending :
      (key : A → ℕ) (xs : List A) → Distinct key xs → Ascending key (sort_by key xs)
  unfolding sort_by
  sort_by-Ascending key [] d = tt
  sort_by-Ascending key (x ∷ xs) d =
      insert_by-Ascending key x (sort_by key xs) (sort_by-Ascending key xs d.1)
        (λ b m. d.0 b (Among-sort_by key b xs m))

  insert_by_first :
      (key : A → ℕ) (x : A) (xs : List A)
      → ((a : A) → Among a xs → key x < key a)
      → insert_by key x xs ≡ x ∷ xs
  unfolding insert_by
  insert_by_first key x [] h = refl
  insert_by_first key x (y ∷ ys) h = ground (arith, h y (inl refl))

  -- A list that rises already is left as it is.
  pub sort_by_id : (key : A → ℕ) (xs : List A) → Ascending key xs → sort_by key xs ≡ xs
  unfolding sort_by
  sort_by_id key [] s = refl
  sort_by_id key (x ∷ xs) s =
      ap (insert_by key x) (sort_by_id key xs s.1) ∙ insert_by_first key x xs s.0

  insert_by_swap :
      (key : A → ℕ) (a b : A) (xs : List A)
      → key a ≢ key b
      → insert_by key a (insert_by key b xs) ≡ insert_by key b (insert_by key a xs)
  unfolding insert_by
  insert_by_swap key a b [] h = ground arith
  insert_by_swap key a b (x ∷ xs) h = ground (arith, insert_by_swap key a b xs h)

  pub Among-Permᴰ : (a : A) {xs ys : List A} → Permᴰ xs ys → Among a xs → Among a ys
  Among-Permᴰ a Permᴰ.nil m = m
  Among-Permᴰ a (Permᴰ.cons e p) (inl q) = inl (q ∙ e)
  Among-Permᴰ a (Permᴰ.cons e p) (inr m) = inr (Among-Permᴰ a p m)
  Among-Permᴰ a (Permᴰ.swap d e) (inl q) = inr (inl (q ∙ d))
  Among-Permᴰ a (Permᴰ.swap d e) (inr (inl q)) = inl (q ∙ e)
  Among-Permᴰ a (Permᴰ.swap d e) (inr (inr m)) = inr (inr m)
  Among-Permᴰ a (Permᴰ.trans p q) m = Among-Permᴰ a q (Among-Permᴰ a p m)

  pub length-Permᴰ : {xs ys : List A} → Permᴰ xs ys → length xs ≡ length ys
  length-Permᴰ Permᴰ.nil = refl
  length-Permᴰ (Permᴰ.cons e p) = ap suc (length-Permᴰ p)
  length-Permᴰ (Permᴰ.swap d e) = refl
  length-Permᴰ (Permᴰ.trans p q) = length-Permᴰ p ∙ length-Permᴰ q

module _ {ℓ κ} {A : Type ℓ} {K : Type κ} where
  pub Distinct-Permᴰ :
      (key : A → K) {xs ys : List A} → Permᴰ xs ys → Distinct key xs → Distinct key ys
  Distinct-Permᴰ key Permᴰ.nil d = tt
  Distinct-Permᴰ key (Permᴰ.cons e p) d =
      (λ b m c. d.0 b (Among-Permᴰ b (Permᴰ.symm p) m) (ap key e ∙ c), Distinct-Permᴰ key p d.1)
  Distinct-Permᴰ key (Permᴰ.swap d e) u = (
    λ b m c. elim m [
      | inl q ↦ u.0 _ (inl refl) (ap key d ∙ ap key (sym q) ∙ sym c ∙ ap key (sym e))
      | inr n ↦ u.1.0 b n (ap key e ∙ c)
    ],
    (λ b m c. u.0 b (inr m) (ap key d ∙ c), u.1.1),
  )
  Distinct-Permᴰ key (Permᴰ.trans p q) d = Distinct-Permᴰ key q (Distinct-Permᴰ key p d)

module _ {ℓ} {A : Type ℓ} where
  -- The order in which the rows come does not matter.
  pub sort_by-Permᴰ :
      (key : A → ℕ) {xs ys : List A}
      → Permᴰ xs ys
      → Distinct key xs
      → sort_by key xs ≡ sort_by key ys
  unfolding sort_by
  sort_by-Permᴰ key Permᴰ.nil d = refl
  sort_by-Permᴰ key (Permᴰ.cons e p) d = cc (e, sort_by-Permᴰ key p d.1)
  sort_by-Permᴰ key (Permᴰ.swap {a = a} {b = b} {l = l} p q) d =
      insert_by_swap key a b (sort_by key l) (d.0 b (inl refl)) ∙ cc (p, q)
  sort_by-Permᴰ key (Permᴰ.trans p q) d =
      sort_by-Permᴰ key p d ∙ sort_by-Permᴰ key q (Distinct-Permᴰ key p d)
