-- ===== src/Flash/Erase/Steps.antt =====
-- The rounds of the loop in `Device::erase` of src/flash.rs.
use embassy_sandbox.Prelude.{ℕ, suc, ◌+◌, ◌-◌, ◌*◌, ◌/◌, ◌^◌, ◌≤◌, ◌<◌, ◌≡◌, refl, arith}
use embassy_sandbox.Prelude.{Bool, true, false, not, ◌&&◌, ◌⊎◌}
use embassy_sandbox.Prelude.{done, ◌>>=◌, bind_assoc, wrapping_add, is_power_of_two}
use embassy_sandbox.Qspi.{Hal}
use embassy_sandbox.Flash.Align.Laws.{up_value, align_up_lem}
use embassy_sandbox.Flash.Range.{RangeInclusive, contains}
use embassy_sandbox.Flash.Fit.Choice.{best_fit_lem}
use embassy_sandbox.Flash.Mode.{single}
use embassy_sandbox.Flash.Transfer
use embassy_sandbox.Flash.Device.{wait_write_done}
use embassy_sandbox.Flash.Erase.{block_erase, erase_block, erase_from}

power_4096 : is_power_of_two 4096 ≡ true
unfolding is_power_of_two
power_4096 = refl

-- Where the loop goes from `address`.
abbrev pub step : ℕ → ℕ × Bool
step address = up_value (wrapping_add address 1) 4096

pub step_inside :
    (address : ℕ)
    → (address / 4096 + 1) * 4096 < 2 ^ 32
    → step address ≡ ((address / 4096 + 1) * 4096, false)
step_inside address h = ground arith

-- The bus when the erasure of a sector has begun.
abbrev pub sector_begun : (hal : Hal) → ℕ → hal.Bus → hal.Bus
sector_begun hal address b =
    hal.command (Transfer.se hal single address) (hal.command (Transfer.wren hal single) b)

-- Past the last sector the loop has wrapped, or is back at address 0.
pub step_wrapped :
    (address : ℕ)
    → address < 2 ^ 32
    → 2 ^ 32 ≤ (address / 4096 + 1) * 4096
    → ((step address).0 ≡ 0) × (((step address).1 ≡ true) ⊎ (address ≡ 2 ^ 32 - 1))
step_wrapped address range h = ground arith

module _ (hal : Hal) (polls : ℕ) (range : RangeInclusive) (start_fits : range.start < 2 ^ 32) where
  open hal use {Bus}

  erase_block_lem :
      (address : ℕ) (b : Bus)
      → erase_block hal polls range address b ≡ (
          wait_write_done hal polls 20000 (sector_begun hal address b) >>= λ b'.
          done (b', (step address).0, (step address).1))
  unfolding erase_block block_erase
  erase_block_lem address b = rw (
    best_fit_lem (wrapping_add address 1) (omega arith) range start_fits,
    align_up_lem (wrapping_add address 1) 4096 (omega arith) power_4096,
  )

  pub erase_from-stops :
      (rounds address : ℕ) (wrapped : Bool) (b : Bus)
      → (contains range address && not wrapped) ≡ false
      → erase_from hal (suc rounds) polls range address wrapped b ≡ done b
  unfolding erase_from
  erase_from-stops rounds address wrapped b out = rw out

  pub erase_from-goes :
      (rounds address : ℕ) (b : Bus)
      → contains range address ≡ true
      → erase_from hal (suc rounds) polls range address false b ≡ (
          wait_write_done hal polls 20000 (sector_begun hal address b) >>= λ b'.
          erase_from hal rounds polls range (step address).0 (step address).1 b')
  unfolding erase_from
  erase_from-goes rounds address b inside =
      rw (inside, erase_block_lem address b)
        (bind_assoc (wait_write_done hal polls 20000 (sector_begun hal address b)) _ _)
