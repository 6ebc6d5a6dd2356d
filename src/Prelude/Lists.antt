-- ===== src/Prelude/Lists.antt =====
-- Lists measured by native numbers, membership and its predicates, and `slice::chunks`.
use Prim.Native.Nat.{ℕ, zero, suc, ◌+◌, ◌-◌, ◌≤◌, ◌<◌, min}
use mathlib.Core.Path.{◌≡◌, refl, ap, sym, ◌∙◌, subst}
use mathlib.Core.Logic.{◌⊎◌, inl, inr}
use mathlib.Core.Bool.{Bool, true, false}
use mathlib.Core.List.{List, [], ◌∷◌, ◌++◌, map}
use native.Mathlib.Omega.{arith}

-- The empty type of every level.
pub data Nowhere {ℓ} : Type ℓ where

module _ {ℓ} {A : Type ℓ} where
  abbrev pub length : List A → ℕ
  length [] = 0
  length (x ∷ xs) = suc (length xs)

  abbrev pub is_nil : List A → Bool
  is_nil [] = true
  is_nil (x ∷ xs) = false

  abbrev pub take : ℕ → List A → List A
  take zero xs = []
  take (suc n) [] = []
  take (suc n) (x ∷ xs) = x ∷ take n xs

  abbrev pub drop : ℕ → List A → List A
  drop zero xs = xs
  drop (suc n) [] = []
  drop (suc n) (x ∷ xs) = drop n xs

  abbrev pub concat : List (List A) → List A
  concat [] = []
  concat (c ∷ cs) = c ++ concat cs

  -- `a` stands in the list.
  abbrev pub Among : A → List A → Type ℓ
  Among a [] = Nowhere
  Among a (x ∷ xs) = (a ≡ x) ⊎ Among a xs

  pub length-append : (xs ys : List A) → length (xs ++ ys) ≡ length xs + length ys
  length-append [] ys = omega arith
  length-append (x ∷ xs) ys = omega (arith, length-append xs ys)

  pub take-append-drop : (n : ℕ) (xs : List A) → take n xs ++ drop n xs ≡ xs
  take-append-drop zero xs = refl
  take-append-drop (suc n) [] = refl
  take-append-drop (suc n) (x ∷ xs) = rw (take-append-drop n xs)

  pub length-take : (n : ℕ) (xs : List A) → length (take n xs) ≡ min n (length xs)
  length-take zero xs = omega arith
  length-take (suc n) [] = omega arith
  length-take (suc n) (x ∷ xs) = omega (arith, length-take n xs)

  pub length-drop : (n : ℕ) (xs : List A) → length (drop n xs) ≡ length xs - n
  length-drop zero xs = omega arith
  length-drop (suc n) [] = omega arith
  length-drop (suc n) (x ∷ xs) = omega (arith, length-drop n xs)

  pub Among-append_left : (a : A) (xs ys : List A) → Among a xs → Among a (xs ++ ys)
  Among-append_left a [] ys h = elim h [ ]
  Among-append_left a (x ∷ xs) ys (inl e) = inl e
  Among-append_left a (x ∷ xs) ys (inr h) = inr (Among-append_left a xs ys h)

  pub Among-append_right : (a : A) (xs ys : List A) → Among a ys → Among a (xs ++ ys)
  Among-append_right a [] ys h = h
  Among-append_right a (x ∷ xs) ys h = inr (Among-append_right a xs ys h)

  pub Among-append : (a : A) (xs ys : List A) → Among a (xs ++ ys) → Among a xs ⊎ Among a ys
  Among-append a [] ys h = inr h
  Among-append a (x ∷ xs) ys (inl e) = inl (inl e)
  Among-append a (x ∷ xs) ys (inr h) = elim (Among-append a xs ys h) [
    | inl l ↦ inl (inr l)
    | inr r ↦ inr r
  ]

  pub Among-take : (a : A) (n : ℕ) (xs : List A) → Among a (take n xs) → Among a xs
  Among-take a zero xs h = elim h [ ]
  Among-take a (suc n) [] h = elim h [ ]
  Among-take a (suc n) (x ∷ xs) (inl e) = inl e
  Among-take a (suc n) (x ∷ xs) (inr h) = inr (Among-take a n xs h)

  -- `slice::chunks(n)`: the fuel is the length of the slice.
  chunks_fuel : ℕ → ℕ → List A → List (List A)
  chunks_fuel zero n xs = []
  chunks_fuel (suc f) n [] = []
  chunks_fuel (suc f) n (x ∷ xs) = take n (x ∷ xs) ∷ chunks_fuel f n (drop n (x ∷ xs))

  unfoldable pub chunks : ℕ → List A → List (List A)
  unfolding chunks_fuel
  chunks n xs = chunks_fuel (length xs) n xs

  concat-chunks_fuel :
      (f n : ℕ) (xs : List A) → 0 < n → length xs ≤ f → concat (chunks_fuel f n xs) ≡ xs
  unfolding chunks_fuel
  concat-chunks_fuel zero n [] p h = refl
  concat-chunks_fuel zero n (x ∷ xs) p h = absurd (omega arith)
  concat-chunks_fuel (suc f) n [] p h = refl
  concat-chunks_fuel (suc f) n (x ∷ xs) p h =
      ap (λ (r : List A). take n (x ∷ xs) ++ r)
        (concat-chunks_fuel f n (drop n (x ∷ xs)) p (omega (arith, length-drop n (x ∷ xs))))
      ∙ take-append-drop n (x ∷ xs)

  pub concat-chunks : (n : ℕ) (xs : List A) → 0 < n → concat (chunks n xs) ≡ xs
  unfolding chunks
  concat-chunks n xs p = concat-chunks_fuel (length xs) n xs p (omega arith)

-- Every element satisfies `P`.
abbrev pub All {ℓ κ} : {A : Type ℓ} → (A → Type κ) → List A → Type κ
All P [] = Unit
All P (x ∷ xs) = P x × All P xs

module _ {ℓ κ} {A : Type ℓ} (P : A → Type κ) where
  pub All-append : (xs ys : List A) → All P xs → All P ys → All P (xs ++ ys)
  All-append [] ys hx hy = hy
  All-append (x ∷ xs) ys hx hy = (hx.0, All-append xs ys hx.1 hy)

  pub All-of : (xs : List A) → ((a : A) → Among a xs → P a) → All P xs
  All-of [] h = tt
  All-of (x ∷ xs) h = (h x (inl refl), All-of xs (λ a m. h a (inr m)))

  pub All-Among : (xs : List A) (a : A) → All P xs → Among a xs → P a
  All-Among [] a h m = elim m [ ]
  All-Among (x ∷ xs) a h (inl e) = subst P (sym e) h.0
  All-Among (x ∷ xs) a h (inr m) = All-Among xs a h.1 m

module _ {ℓ} {A : Type ℓ} where
  -- No chunk holds more than `n` elements.
  All-chunks_fuel :
      (f n : ℕ) (xs : List A) → All (λ (c : List A). length c ≤ n) (chunks_fuel f n xs)
  unfolding chunks_fuel
  All-chunks_fuel zero n xs = tt
  All-chunks_fuel (suc f) n [] = tt
  All-chunks_fuel (suc f) n (x ∷ xs) =
      (omega (arith, length-take n (x ∷ xs)), All-chunks_fuel f n (drop n (x ∷ xs)))

  pub All-chunks : (n : ℕ) (xs : List A) → All (λ (c : List A). length c ≤ n) (chunks n xs)
  unfolding chunks
  All-chunks n xs = All-chunks_fuel (length xs) n xs

module _ {ℓ κ} {A : Type ℓ} {B : Type κ} where
  pub Among-map : (f : A → B) (a : A) (xs : List A) → Among a xs → Among (f a) (map f xs)
  Among-map f a [] h = elim h [ ]
  Among-map f a (x ∷ xs) (inl e) = inl (ap f e)
  Among-map f a (x ∷ xs) (inr h) = inr (Among-map f a xs h)

  pub Among-map_inv :
      (f : A → B) (b : B) (xs : List A) → Among b (map f xs) → (a : A) × Among a xs × (b ≡ f a)
  Among-map_inv f b [] h = elim h [ ]
  Among-map_inv f b (x ∷ xs) (inl e) = (x, inl refl, e)
  Among-map_inv f b (x ∷ xs) (inr h) = let r = Among-map_inv f b xs h in (r.0, inr r.1, r.2)

  pub length-map : (f : A → B) (xs : List A) → length (map f xs) ≡ length xs
  length-map f [] = refl
  length-map f (x ∷ xs) = ap suc (length-map f xs)
