-- ===== src/Prelude/Order.antt =====
-- Lists whose keys rise strictly: their parts, and two such lists with the same keys.
use Prim.Native.Nat.{ℕ, zero, suc, ◌<◌}
use mathlib.Core.Path.{◌≡◌, refl, ap, sym, ◌∙◌}
use mathlib.Core.Logic.{◌≢◌, inl, inr}
use mathlib.Core.Bool.{Bool}
use mathlib.Core.List.{List, [], ◌∷◌, ◌++◌, map}
use native.Mathlib.Omega.{arith}
use litefan.Prelude.Tests.{leb, Bool-cases}
use litefan.Prelude.Lists.{
  take, Among, Among-take, Among-map_inv, Among-append, Among-append_left, Among-append_right,
}
use litefan.Prelude.Rows.{select, Among-select_inv, Distinct}
use litefan.Prelude.Sorting.{insert_by, sort_by, Ascending, Among-insert_by, Among-sort_by}

module _ {ℓ} {A : Type ℓ} where
  pub Ascending-select :
      (key : A → ℕ) (p : A → Bool) (xs : List A) → Ascending key xs → Ascending key (select p xs)
  Ascending-select key p [] s = tt
  Ascending-select key p (x ∷ xs) s = elim (Bool-cases (p x)) [
    | inl t ↦ rw t (λ a m. s.0 a (Among-select_inv p a xs m).0, Ascending-select key p xs s.1)
    | inr f ↦ rw f (Ascending-select key p xs s.1)
  ]

  pub Ascending-take :
      (key : A → ℕ) (n : ℕ) (xs : List A) → Ascending key xs → Ascending key (take n xs)
  Ascending-take key zero xs s = tt
  Ascending-take key (suc n) [] s = tt
  Ascending-take key (suc n) (x ∷ xs) s =
      (λ a m. s.0 a (Among-take a n xs m), Ascending-take key n xs s.1)

  pub Ascending-Distinct : (key : A → ℕ) (xs : List A) → Ascending key xs → Distinct key xs
  Ascending-Distinct key [] s = tt
  Ascending-Distinct key (x ∷ xs) s =
      (λ a m e. absurd (omega (arith, s.0 a m, e)), Ascending-Distinct key xs s.1)

  pub Ascending-append :
      (key : A → ℕ) (xs ys : List A)
      → Ascending key xs
      → Ascending key ys
      → ((a b : A) → Among a xs → Among b ys → key a < key b)
      → Ascending key (xs ++ ys)
  Ascending-append key [] ys sx sy h = sy
  Ascending-append key (x ∷ xs) ys sx sy h = (
    λ a m. elim (Among-append a xs ys m) [ inl l ↦ sx.0 a l | inr r ↦ h x a (inl refl) r ],
    Ascending-append key xs ys sx.1 sy (λ a b m n. h a b (inr m) n),
  )

module _ {ℓ κ} {A : Type ℓ} {B : Type κ} where
  pub Ascending-map :
      (key : A → ℕ) (key' : B → ℕ) (f : A → B) (xs : List A)
      → ((a : A) → key' (f a) ≡ key a)
      → Ascending key xs
      → Ascending key' (map f xs)
  Ascending-map key key' f [] h s = tt
  Ascending-map key key' f (x ∷ xs) h s = (
    λ b m. let r = Among-map_inv f b xs m in omega (arith, s.0 r.0 r.1, h x, h r.0, ap key' r.2),
    Ascending-map key key' f xs h s.1,
  )

-- Parts of a list with distinct keys share none.
module _ {ℓ κ} {A : Type ℓ} {K : Type κ} where
  pub Distinct-right : (key : A → K) (xs ys : List A) → Distinct key (xs ++ ys) → Distinct key ys
  Distinct-right key [] ys d = d
  Distinct-right key (x ∷ xs) ys d = Distinct-right key xs ys d.1

  pub Distinct-left : (key : A → K) (xs ys : List A) → Distinct key (xs ++ ys) → Distinct key xs
  Distinct-left key [] ys d = tt
  Distinct-left key (x ∷ xs) ys d =
      (λ a m. d.0 a (Among-append_left a xs ys m), Distinct-left key xs ys d.1)

  pub Distinct-apart :
      (key : A → K) (xs ys : List A) (a b : A)
      → Distinct key (xs ++ ys)
      → Among a xs
      → Among b ys
      → key a ≢ key b
  Distinct-apart key [] ys a b d m n k = elim m [ ]
  Distinct-apart key (x ∷ xs) ys a b d (inl e) n k =
      d.0 b (Among-append_right b xs ys n) (ap key (sym e) ∙ k)
  Distinct-apart key (x ∷ xs) ys a b d (inr m) n k = Distinct-apart key xs ys a b d.1 m n k

  pub Distinct-of_map :
      {B : Type κ} (key : A → K) (key' : B → K) (f : A → B) (xs : List A)
      → ((a : A) → key' (f a) ≡ key a)
      → Distinct key xs
      → Distinct key' (map f xs)
  Distinct-of_map key key' f [] h d = tt
  Distinct-of_map key key' f (x ∷ xs) h d = (
    λ b m e. let r = Among-map_inv f b xs m in d.0 r.0 r.1 (sym (h x) ∙ e ∙ ap key' r.2 ∙ h r.0),
    Distinct-of_map key key' f xs h d.1,
  )

-- A sort and a LIMIT keep keys unique.
module _ {ℓ κ} {A : Type ℓ} {K : Type κ} where
  Distinct-insert_by :
      (key : A → ℕ) (unique : A → K) (x : A) (xs : List A)
      → ((a : A) → Among a xs → unique x ≢ unique a)
      → Distinct unique xs
      → Distinct unique (insert_by key x xs)
  unfolding insert_by
  Distinct-insert_by key unique x [] h d = (h, d)
  Distinct-insert_by key unique x (y ∷ xs) h d = elim (Bool-cases (leb (key x) (key y))) [
    | inl t ↦ rw t (h, d)
    | inr f ↦ rw f (
      (λ a m e. elim (Among-insert_by key x a xs m) [
        | inl same ↦ h y (inl refl) (ap unique (sym same) ∙ sym e)
        | inr n ↦ d.0 a n e
      ]),
      Distinct-insert_by key unique x xs (λ a m. h a (inr m)) d.1,
    )
  ]

  pub Distinct-sort_by :
      (key : A → ℕ) (unique : A → K) (xs : List A)
      → Distinct unique xs
      → Distinct unique (sort_by key xs)
  unfolding sort_by
  Distinct-sort_by key unique [] d = tt
  Distinct-sort_by key unique (x ∷ xs) d =
      Distinct-insert_by key unique x (sort_by key xs) (λ a m. d.0 a (Among-sort_by key a xs m))
        (Distinct-sort_by key unique xs d.1)

  pub Distinct-take :
      (unique : A → K) (n : ℕ) (xs : List A) → Distinct unique xs → Distinct unique (take n xs)
  Distinct-take unique zero xs d = tt
  Distinct-take unique (suc n) [] d = tt
  Distinct-take unique (suc n) (x ∷ xs) d =
      (λ a m. d.0 a (Among-take a n xs m), Distinct-take unique n xs d.1)
