-- ===== src/Flash/Align.antt =====
-- `align_up`, `align_down` and `is_aligned_to` of src/flash.rs, on `u32` addresses.
pub mod Laws
use embassy_sandbox.Prelude.{ℕ, ◌-◌, bit_and, Bool, false, ◌==◌, if◌then◌else◌}
use embassy_sandbox.Prelude.{Outcome, done, ◌>>=◌, ◌>>◌, assert}
use embassy_sandbox.Prelude.{overflowing_add, complement, is_power_of_two}

unfoldable pub is_aligned_to : ℕ → ℕ → Outcome Bool
is_aligned_to address alignment = do
  assert (is_power_of_two alignment)
  done (bit_and address (alignment - 1) == 0)

unfoldable pub align_down : ℕ → ℕ → Outcome ℕ
align_down address alignment = do
  assert (is_power_of_two alignment)
  done (bit_and address (complement (alignment - 1)))

-- The aligned address, and whether it wrapped.
unfoldable pub align_up : ℕ → ℕ → Outcome (ℕ × Bool)
align_up address alignment = do
  assert (is_power_of_two alignment)
  aligned ← is_aligned_to address alignment
  if aligned
      then done (address, false)
      else done (overflowing_add (bit_and address (complement (alignment - 1))) alignment)
