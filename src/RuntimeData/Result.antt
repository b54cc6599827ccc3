-- ===== src/RuntimeData/Result.antt =====
-- The errors of src/runtime_data.rs, and code that returns one.
use conda_ship.Prelude.{Bool, true, false}

pub data DataError : Type 0 where
  unexpected_eof unsupported_footer_version length_overflow before_start : DataError
  before_minimum header_too_large header_mismatch unparsable : DataError
  unsupported_schema nonzero_padding nonzero_range bundle_grew bundle_changed : DataError
  zero_alignment alignment_overflow entry_truncated entry_too_small too_many_entries : DataError
  entries_exceed range_overflow too_large panicked out_of_fuel : DataError
  template_link template_irregular template_replaced template_changed : DataError
  macho_unsupported invalid_pe stamp_unread stamp_mismatch : DataError
  bundle_mismatch bundle_missing output_replaced : DataError

pub data Result {ℓ} (A : Type ℓ) : Type ℓ where
  ok : A → Result A
  err : DataError → Result A

infixl 5 ◌>>=◌ ◌>>◌
abbrev pub ◌>>=◌ {ℓ κ} : {A : Type ℓ} {B : Type κ} → Result A → (A → Result B) → Result B
ok a >>= f = f a
err e >>= f = err e

abbrev pub ◌>>◌ {κ} : {B : Type κ} → Result (Unit {0}) → Result B → Result B
m >> k = m >>= λ _. k

abbrev pub check : Bool → DataError → Result (Unit {0})
check true e = ok tt
check false e = err e
