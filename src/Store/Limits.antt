-- ===== src/Store/Limits.antt =====
-- The batch limit of src/store.rs.
use litefan.Prelude.{ℕ, ◌≤◌, ◌≡◌, arith}
use litefan.Error.{ok}
use litefan.Store.{LiteFan, ensure_batch_size}

pub ensure_batch_size-le :
    (fan : LiteFan) (n : ℕ) → n ≤ fan.max_batch_size → ensure_batch_size fan n ≡ ok tt
unfolding ensure_batch_size
ensure_batch_size-le fan n h = ground arith
