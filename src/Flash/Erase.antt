-- ===== src/Flash/Erase.antt =====
-- `Device::erase` of src/flash.rs: its loop, over the choice of a block in `Fit`.
pub mod Steps
pub mod Laws
use embassy_sandbox.Prelude.{ℕ, zero, suc, ◌*◌, Bool, false, not, ◌&&◌, ◌==◌, if◌then◌else◌}
use embassy_sandbox.Prelude.{Outcome, done, panic, starved, ◌>>=◌, wrapping_add}
use embassy_sandbox.Qspi.{Hal, TransferConfig}
use embassy_sandbox.Flash.Align.{align_up}
use embassy_sandbox.Flash.Range.{RangeInclusive, contains}
use embassy_sandbox.Flash.Fit.{align_4k, align_32k, align_64k, best_fit}
use embassy_sandbox.Flash.Mode.{single}
use embassy_sandbox.Flash.Transfer
use embassy_sandbox.Flash.Device.{wait_write_done}

module _ (hal : Hal) where
  open hal use {DummyCycles, Bus, command}

  -- The `match align`: the transfer, and the pause between polls in milliseconds.
  unfoldable pub block_erase : ℕ → ℕ → Outcome (TransferConfig DummyCycles × ℕ)
  block_erase align address =
      if align == align_4k
      then done (Transfer.se hal single address, 20)
      else if align == align_32k
      then done (Transfer.be32k hal single address, 100)
      else if align == align_64k
      then done (Transfer.be hal single address, 200)
      else panic

  -- The body of the loop: the bus after one block, with the next address and whether it wrapped.
  unfoldable pub erase_block : ℕ → RangeInclusive → ℕ → Bus → Outcome (Bus × ℕ × Bool)
  erase_block polls range address bus =
      let enabled = command (Transfer.wren hal single) bus in
      do
        align ← best_fit (wrapping_add address 1) range
        (transfer, t_ms) ← block_erase align address
        bus' ← wait_write_done hal polls (t_ms * 1000) (command transfer enabled)
        (next, wrapped) ← align_up (wrapping_add address 1) align
        done (bus', next, wrapped)

  -- The loop, with the rounds and the polls that it may take.
  unfoldable pub erase_from : ℕ → ℕ → RangeInclusive → ℕ → Bool → Bus → Outcome Bus
  erase_from zero polls range address wrapped bus = starved
  erase_from (suc rounds) polls range address wrapped bus =
      let more = (do
        (bus', next, wrapped') ← erase_block polls range address bus
        erase_from rounds polls range next wrapped' bus') in
      if contains range address && not wrapped then more else done bus

  unfoldable pub erase : ℕ → ℕ → RangeInclusive → Bus → Outcome Bus
  erase rounds polls range bus = erase_from rounds polls range range.start false bus
