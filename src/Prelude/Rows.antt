-- ===== src/Prelude/Rows.antt =====
-- What the clauses of an SQL statement do to the rows of a table: WHERE, DELETE, UPDATE, COUNT,
-- EXISTS, MIN and MAX.
use Prim.Native.Nat.{ℕ, ◌≤◌, max, min}
use mathlib.Core.Path.{◌≡◌, refl, ap, sym, ◌∙◌}
use mathlib.Core.Logic.{◌≢◌, inl, inr}
use mathlib.Core.Bool.{Bool, true, false, not, ◌||◌}
use mathlib.Core.Option.{Option, none, some}
use mathlib.Core.List.{List, [], ◌∷◌, ◌++◌, map}
use native.Mathlib.Omega.{arith}
use litefan.Prelude.Tests.{if◌then◌else◌, Bool-cases}
use litefan.Prelude.Lists.{length, Among, Among-append, Among-map_inv}

abbrev pub smaller : ℕ → Option ℕ → Option ℕ
smaller a none = some a
smaller a (some b) = some (min a b)

module _ {ℓ} {A : Type ℓ} where
  -- SELECT … WHERE
  abbrev pub select : (A → Bool) → List A → List A
  select p [] = []
  select p (x ∷ xs) = if p x then x ∷ select p xs else select p xs

  -- DELETE … WHERE: the rows that stay.
  abbrev pub delete_where : (A → Bool) → List A → List A
  delete_where p xs = select (λ x. not (p x)) xs

  -- UPDATE … SET f WHERE p
  abbrev pub update_where : (A → Bool) → (A → A) → List A → List A
  update_where p f xs = map (λ x. if p x then f x else x) xs

  -- `rows_affected()`, and SELECT COUNT(*)
  abbrev pub count_where : (A → Bool) → List A → ℕ
  count_where p xs = length (select p xs)

  -- EXISTS, and the membership test of IN
  abbrev pub exists_where : (A → Bool) → List A → Bool
  exists_where p [] = false
  exists_where p (x ∷ xs) = p x || exists_where p xs

  -- The one row that a unique key selects.
  abbrev pub find_where : (A → Bool) → List A → Option A
  find_where p [] = none
  find_where p (x ∷ xs) = if p x then some x else find_where p xs

  -- COALESCE(MAX(key), 0)
  abbrev pub max_of : (A → ℕ) → List A → ℕ
  max_of key [] = 0
  max_of key (x ∷ xs) = max (key x) (max_of key xs)

  -- MIN(key), NULL where there is no row
  abbrev pub min_of : (A → ℕ) → List A → Option ℕ
  min_of key [] = none
  min_of key (x ∷ xs) = smaller (key x) (min_of key xs)

module _ {ℓ} {A : Type ℓ} where
  pub Among-select :
      (p : A → Bool) (a : A) (xs : List A) → Among a xs → p a ≡ true → Among a (select p xs)
  Among-select p a [] m h = elim m [ ]
  Among-select p a (x ∷ xs) (inl e) h = let t : p x ≡ true = ap p (sym e) ∙ h in rw t (inl e)
  Among-select p a (x ∷ xs) (inr m) h = elim (Bool-cases (p x)) [
    | inl t ↦ rw t (inr (Among-select p a xs m h))
    | inr f ↦ rw f (Among-select p a xs m h)
  ]

  kept :
      (p : A → Bool) (a x : A) (xs : List A)
      → p x ≡ true
      → (Among a (select p xs) → Among a xs × (p a ≡ true))
      → Among a (x ∷ select p xs)
      → Among a (x ∷ xs) × (p a ≡ true)
  kept p a x xs t r (inl e) = (inl e, ap p e ∙ t)
  kept p a x xs t r (inr n) = (inr (r n).0, (r n).1)

  pub Among-select_inv :
      (p : A → Bool) (a : A) (xs : List A) → Among a (select p xs) → Among a xs × (p a ≡ true)
  Among-select_inv p a [] m = elim m [ ]
  Among-select_inv p a (x ∷ xs) m = elim (Bool-cases (p x)) [
    | inl t ↦ kept p a x xs t (Among-select_inv p a xs) (rw t at m)
    | inr f ↦ let r = Among-select_inv p a xs (rw f at m) in (inr r.0, r.1)
  ]

  pub length-select-le : (p : A → Bool) (xs : List A) → length (select p xs) ≤ length xs
  length-select-le p [] = omega arith
  length-select-le p (x ∷ xs) = ground (arith, length-select-le p xs)

  pub exists_where-Among :
      (p : A → Bool) (xs : List A) → exists_where p xs ≡ true → (a : A) × Among a xs × (p a ≡ true)
  exists_where-Among p [] h = cc
  exists_where-Among p (x ∷ xs) h = elim (Bool-cases (p x)) [
    | inl t ↦ (x, inl refl, t)
    | inr f ↦ let r = exists_where-Among p xs (rw f at h) in (r.0, inr r.1, r.2)
  ]

  pub exists_where-true :
      (p : A → Bool) (a : A) (xs : List A) → Among a xs → p a ≡ true → exists_where p xs ≡ true
  exists_where-true p a [] m h = elim m [ ]
  exists_where-true p a (x ∷ xs) (inl e) h = let t : p x ≡ true = ap p (sym e) ∙ h in rw t
  exists_where-true p a (x ∷ xs) (inr m) h = ground (arith, exists_where-true p a xs m h)

  pub find_where-Among :
      (p : A → Bool) (xs : List A) (a : A) → find_where p xs ≡ some a → Among a xs × (p a ≡ true)
  find_where-Among p [] a h = cc
  find_where-Among p (x ∷ xs) a h = elim (Bool-cases (p x)) [
    | inl t ↦ let e : x ≡ a = ground arith in (inl (sym e), ap p (sym e) ∙ t)
    | inr f ↦ let r = find_where-Among p xs a (rw f at h) in (inr r.0, r.1)
  ]

  pub find_where-none :
      (p : A → Bool) (a : A) (xs : List A) → find_where p xs ≡ none → Among a xs → p a ≡ false
  find_where-none p a [] h m = elim m [ ]
  find_where-none p a (x ∷ xs) h (inl e) = ap p e ∙ ground arith
  find_where-none p a (x ∷ xs) h (inr m) = find_where-none p a xs (ground arith) m

  pub max_of-ge : (key : A → ℕ) (a : A) (xs : List A) → Among a xs → key a ≤ max_of key xs
  max_of-ge key a [] m = elim m [ ]
  max_of-ge key a (x ∷ xs) (inl e) = omega (arith, ap key e)
  max_of-ge key a (x ∷ xs) (inr m) = omega (arith, max_of-ge key a xs m)

  pub max_of-le :
      (key : A → ℕ) (n : ℕ) (xs : List A) → ((a : A) → Among a xs → key a ≤ n) → max_of key xs ≤ n
  max_of-le key n [] h = omega arith
  max_of-le key n (x ∷ xs) h =
      omega (arith, h x (inl refl), max_of-le key n xs (λ a m. h a (inr m)))

-- No two rows have the same key: a primary key or a UNIQUE constraint.
module _ {ℓ κ} {A : Type ℓ} {K : Type κ} where
  abbrev pub Distinct : (A → K) → List A → Type (ℓ ⊔ κ)
  Distinct key [] = Unit
  Distinct key (x ∷ xs) = ((a : A) → Among a xs → key x ≢ key a) × Distinct key xs

  pub Distinct-select :
      (key : A → K) (p : A → Bool) (xs : List A) → Distinct key xs → Distinct key (select p xs)
  Distinct-select key p [] d = tt
  Distinct-select key p (x ∷ xs) d = elim (Bool-cases (p x)) [
    | inl t ↦ rw t (λ a m. d.0 a (Among-select_inv p a xs m).0, Distinct-select key p xs d.1)
    | inr f ↦ rw f (Distinct-select key p xs d.1)
  ]

  pub Distinct-append :
      (key : A → K) (xs ys : List A)
      → Distinct key xs
      → Distinct key ys
      → ((a b : A) → Among a xs → Among b ys → key a ≢ key b)
      → Distinct key (xs ++ ys)
  Distinct-append key [] ys dx dy h = dy
  Distinct-append key (x ∷ xs) ys dx dy h = (
    λ a m. elim (Among-append a xs ys m) [ inl l ↦ dx.0 a l | inr r ↦ h x a (inl refl) r ],
    Distinct-append key xs ys dx.1 dy (λ a b m n. h a b (inr m) n),
  )

  -- Two rows with one key are one row.
  pub Distinct-eq :
      (key : A → K) (xs : List A) (a b : A)
      → Distinct key xs
      → Among a xs
      → Among b xs
      → key a ≡ key b
      → a ≡ b
  Distinct-eq key [] a b d m n e = elim m [ ]
  Distinct-eq key (x ∷ xs) a b d (inl p) (inl q) e = p ∙ sym q
  Distinct-eq key (x ∷ xs) a b d (inl p) (inr n) e = absurd (d.0 b n (ap key (sym p) ∙ e))
  Distinct-eq key (x ∷ xs) a b d (inr m) (inl q) e = absurd (d.0 a m (ap key (sym q) ∙ sym e))
  Distinct-eq key (x ∷ xs) a b d (inr m) (inr n) e = Distinct-eq key xs a b d.1 m n e

-- An UPDATE that leaves the key alone.
module _ {ℓ κ} {A : Type ℓ} {K : Type κ} where
  pub Distinct-map :
      (key : A → K) (f : A → A) (xs : List A)
      → ((a : A) → key (f a) ≡ key a)
      → Distinct key xs
      → Distinct key (map f xs)
  Distinct-map key f [] h d = tt
  Distinct-map key f (x ∷ xs) h d = (
    λ a m e. let r = Among-map_inv f a xs m in d.0 r.0 r.1 (sym (h x) ∙ e ∙ ap key r.2 ∙ h r.0),
    Distinct-map key f xs h d.1,
  )
