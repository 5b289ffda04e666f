-- ===== src/Flash/Program.antt =====
-- `Device::program` of src/flash.rs.
pub mod Span
pub mod Pages
pub mod Laws
use embassy_sandbox.Prelude.{ℕ, zero, suc, List, [], ◌∷◌, length, take, drop, leb}
use embassy_sandbox.Prelude.{
  if◌then◌else◌, Outcome, done, panic, ◌>>=◌, overflowing_add, wrapping_sub,
}
use embassy_sandbox.Qspi.{Hal}
use embassy_sandbox.Flash.Align.{align_up}
use embassy_sandbox.Flash.Mode.{single}
use embassy_sandbox.Flash.Transfer
use embassy_sandbox.Flash.Device.{wait_write_done}

abbrev pub chunk_size : ℕ
chunk_size = 256

-- `slice::split_at`, which panics past the end.
abbrev pub split_at : List ℕ → ℕ → Outcome (List ℕ × List ℕ)
split_at bytes mid = if leb mid (length bytes) then done (take mid bytes, drop mid bytes) else panic

unfoldable pub chunks_from : ℕ → ℕ → List ℕ → List (List ℕ)
chunks_from zero n bytes = []
chunks_from (suc rounds) n [] = []
chunks_from (suc rounds) n (x ∷ xs) = take n (x ∷ xs) ∷ chunks_from rounds n (drop n (x ∷ xs))

-- `slice::chunks`: pieces of `n` bytes, and a shorter one at the end.
unfoldable pub chunks : List ℕ → ℕ → List (List ℕ)
unfolding chunks_from
chunks bytes n = chunks_from (length bytes) n bytes

module _ (hal : Hal) where
  open hal use {Bus, command, write_dma}

  -- One write enable, one page program and the wait for its end.
  unfoldable pub program_page : ℕ → List ℕ → ℕ → Bus → Outcome Bus
  program_page polls section address bus =
      wait_write_done hal polls 10 (
        write_dma section (Transfer.pp hal single address) (command (Transfer.wren hal single) bus))

  unfoldable pub program_sections : ℕ → List (List ℕ) → ℕ → Bus → Outcome Bus
  program_sections polls [] offset bus = done bus
  program_sections polls (section ∷ sections) offset bus = do
    bus' ← program_page polls section offset bus
    program_sections polls sections (overflowing_add offset chunk_size).0 bus'

  unfoldable pub program_prefix : ℕ → List ℕ → ℕ → Bus → Outcome Bus
  program_prefix polls [] address bus = done bus
  program_prefix polls (x ∷ xs) address bus = program_page polls (x ∷ xs) address bus

  unfoldable pub program : ℕ → List ℕ → ℕ → Bus → Outcome Bus
  program polls bytes address bus = do
    (offset, wrap) ← align_up address chunk_size
    (prefix, rest) ← split_at bytes (wrapping_sub offset address)
    bus' ← program_prefix polls prefix address bus
    program_sections polls (chunks rest chunk_size) offset bus'
