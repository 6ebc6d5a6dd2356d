-- ===== src/Error/Ensures.antt =====
-- Postconditions of fallible operations: `Ensures P m` says that `P` holds of what `m` returns, if it
-- returns.
use litefan.Prelude.{◌≡◌, refl, sym, ◌∙◌, subst, Bool, true, false, if◌then◌else◌}
use litefan.Error.{Error, Result, ok, err, ◌>>=◌}

abbrev pub Ensures {ℓ κ} : {A : Type ℓ} → (A → Type κ) → Result A → Type (ℓ ⊔ κ)
Ensures {A = A} P m = (a : A) → m ≡ ok a → P a

module _ {ℓ κ} {A : Type ℓ} (P : A → Type κ) where
  pub Ensures-ok : (a : A) → P a → Ensures P (ok a)
  Ensures-ok a p b e = let q : a ≡ b = cc in subst P q p

  -- What is proved of the one value that was returned.
  pub Ensures-run : (m : Result A) (a : A) → m ≡ ok a → P a → Ensures P m
  Ensures-run m a run p b h = Ensures-ok a p b (sym run ∙ h)

  pub Ensures-err : (e : Error) → Ensures P (err e)
  Ensures-err e b h = absurd (cc)

  pub Ensures-if :
      (b : Bool) (m n : Result A) → Ensures P m → Ensures P n → Ensures P (if b then m else n)
  Ensures-if true m n p q = p
  Ensures-if false m n p q = q

module _ {ℓ κ μ} {A : Type ℓ} {B : Type κ} (P : B → Type μ) where
  pub Ensures-bind :
      (m : Result A) (f : A → Result B)
      → ((a : A) → m ≡ ok a → Ensures P (f a))
      → Ensures P (m >>= f)
  Ensures-bind (ok a) f h = h a refl
  Ensures-bind (err e) f h = Ensures-err P e

-- A property of both branches of a conditional holds of the conditional.
pub of_if {ℓ κ} :
    {A : Type ℓ} (P : A → Type κ) (b : Bool) (x y : A) → P x → P y → P (if b then x else y)
of_if P true x y p q = p
of_if P false x y p q = q
