-- ===== src/Prelude/Counting.antt =====
-- Counting rows, and testing for one, after a DELETE or an UPDATE.
use Prim.Native.Nat.{◌≤◌}
use mathlib.Core.Path.{◌≡◌, refl}
use mathlib.Core.Logic.{inl, inr}
use mathlib.Core.Bool.{Bool, true, false, ◌||◌}
use mathlib.Core.List.{List, [], ◌∷◌, ◌++◌}
use native.Mathlib.Omega.{arith}
use litefan.Prelude.Tests.{◌==◌, Bool-cases}
use litefan.Prelude.Lists.{Among}
use litefan.Prelude.Rows.{count_where, exists_where, delete_where, update_where, Distinct}

module _ {ℓ} {A : Type ℓ} (p : A → Bool) where
  pub count-zero : (xs : List A) → exists_where p xs ≡ false → count_where p xs ≡ 0
  count-zero [] h = refl
  count-zero (x ∷ xs) h = ground (arith, count-zero xs)

  pub none_of : (xs : List A) → ((a : A) → Among a xs → p a ≡ false) → exists_where p xs ≡ false
  none_of [] h = refl
  none_of (x ∷ xs) h = ground (arith, h x (inl refl), none_of xs (λ a m. h a (inr m)))

  pub count-one : (xs : List A) → count_where p xs ≤ 1 → (count_where p xs == 1) ≡ exists_where p xs
  count-one [] h = refl
  count-one (x ∷ xs) h = ground (arith, count-one xs, count-zero xs)

  pub exists-delete_where : (xs : List A) → exists_where p (delete_where p xs) ≡ false
  exists-delete_where [] = refl
  exists-delete_where (x ∷ xs) = ground (arith, exists-delete_where xs)

  pub exists-update_where :
      (f : A → A) (xs : List A)
      → ((a : A) → p a ≡ true → p (f a) ≡ false)
      → exists_where p (update_where p f xs) ≡ false
  exists-update_where f [] h = refl
  exists-update_where f (x ∷ xs) h = ground (arith, h x, exists-update_where f xs h)

  pub exists-update_same :
      (f : A → A) (xs : List A)
      → ((a : A) → p (f a) ≡ p a)
      → exists_where p (update_where p f xs) ≡ exists_where p xs
  exists-update_same f [] h = refl
  exists-update_same f (x ∷ xs) h = ground (arith, h x, exists-update_same f xs h)

  pub delete_where-none : (xs : List A) → exists_where p xs ≡ false → delete_where p xs ≡ xs
  delete_where-none [] h = refl
  delete_where-none (x ∷ xs) h = ground (arith, delete_where-none xs)

  pub update_where-none :
      (f : A → A) (xs : List A) → exists_where p xs ≡ false → update_where p f xs ≡ xs
  update_where-none f [] h = refl
  update_where-none f (x ∷ xs) h = ground (arith, update_where-none f xs)

-- A test that tells one key from the others passes for at most one row.
pub count_le_one {ℓ κ} :
    {A : Type ℓ} {K : Type κ} (key : A → K) (p : A → Bool) (rows : List A)
    → Distinct key rows
    → ((a b : A) → p a ≡ true → p b ≡ true → key a ≡ key b)
    → count_where p rows ≤ 1
count_le_one key p [] d h = omega arith
count_le_one key p (x ∷ rows) d h = elim (Bool-cases (p x)) [
  | inl t ↦ rw t (
      omega (
        arith,
        count-zero p rows (
            none_of p rows
              λ a m. elim (Bool-cases (p a)) [ inl u ↦ absurd (d.0 a m (h x a t u)) | inr v ↦ v ]),
      ))
  | inr f ↦ rw f (count_le_one key p rows d.1 h)
]

pub exists_where-append {ℓ} :
    {A : Type ℓ} (p : A → Bool) (xs ys : List A)
    → exists_where p (xs ++ ys) ≡ (exists_where p xs || exists_where p ys)
exists_where-append p [] ys = refl
exists_where-append p (x ∷ xs) ys = ground (arith, exists_where-append p xs ys)
