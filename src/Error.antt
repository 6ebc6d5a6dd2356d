-- ===== src/Error.antt =====
-- src/error.rs: the failures, and `Result` as a monad. A database error is the constraint of the
-- schema that a statement violates, or a missing row; errors of the file, of the lock and of the driver do not occur
-- in the model.
pub mod Ensures
pub mod Display
use litefan.Prelude.{ℕ, String, ◌≡◌, refl, ◌⊎◌, inl, inr, Option, none, some}

pub data DatabaseError : Type 0 where
  unique foreign_key check row_not_found no_such_column : DatabaseError

pub data Error : Type 0 where
  sqlx : DatabaseError → Error
  batch_too_large : ℕ → ℕ → Error
  consumer_configuration_mismatch : String → Error
  empty_consumer_name : Error
  invalid_config : String → Error
  invalid_poll : String → Error
  invalid_visibility_timeout : Error
  incompatible_schema : Error
  unsupported_schema_version : ℕ → ℕ → Error
  incomplete_idempotency_entry : Error
  consumer_deleted : String → Error
  consumer_not_found : String → Error
  consumer_not_draining : String → Error
  consumer_not_empty : String → ℕ → Error
  consumer_has_archives : String → ℕ → Error
  clock_before_unix_epoch : Error
  duration_out_of_range : Error
  counter_out_of_range : Error
  storage_invariant : String → Error

-- `crate::Result`
pub data Result {ℓ} (T : Type ℓ) : Type ℓ where
  ok : T → Result T
  err : Error → Result T

-- To split on what a fallible step returned.
pub Result-cases {ℓ} :
    {T : Type ℓ} (step : Result T) → ((t : T) × (step ≡ ok t)) ⊎ ((e : Error) × (step ≡ err e))
Result-cases (ok t) = inl (t, refl)
Result-cases (err e) = inr (e, refl)

-- `ok_or`
abbrev pub or_fail {ℓ} : {T : Type ℓ} → Error → Option T → Result T
or_fail e none = err e
or_fail e (some t) = ok t

module _ {ℓ κ} {T : Type ℓ} {U : Type κ} where
  -- The `?` operator, with the rest of the function.
  infixl 5 ◌>>=◌
  abbrev pub ◌>>=◌ : Result T → (T → Result U) → Result U
  (err e) >>= rest = err e
  (ok t) >>= rest = rest t

  -- A successful chain: each part succeeded.
  pub >>=-eq-ok :
      (step : Result T) (rest : T → Result U) {u : U}
      → (step >>= rest) ≡ ok u
      → (t : T) × (step ≡ ok t) × (rest t ≡ ok u)
  >>=-eq-ok (err e) rest h = cc
  >>=-eq-ok (ok t) rest h = (t, refl, h)

infixl 5 ◌>>◌
abbrev pub ◌>>◌ {κ} : {U : Type κ} → Result (Unit {0}) → Result U → Result U
check_step >> next = check_step >>= λ done. next
