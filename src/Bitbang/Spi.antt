-- ===== src/Bitbang/Spi.antt =====
-- `Spi` of src/bitbang.rs: the master with one data line in each direction.
pub mod Peer
pub mod Exchange
pub mod Message
use embassy_sandbox.Prelude.{ℕ, zero, suc, ◌/◌, true, false, List, [], ◌∷◌, bit_or}
use embassy_sandbox.Bitbang.Wire.{
  Level, Event, History, M, ◌>>=◌, ◌>>◌, pure, emit, when, get_level,
}
use embassy_sandbox.Bitbang.Types.{Cpol, Cpha, idle, is_0, is_1}
use embassy_sandbox.Bitbang.Bits.{bit_at, place}

pub data Pin : Type 0 where
  ncs sck mosi miso : Pin

pub record Spi : Type 0 where
  pub min_sck_half_cycle : ℕ
  pub cs_high_time : ℕ
  pub cpol : Cpol
  pub cpha : Cpha

-- `max(1, d)`, of durations in ticks.
abbrev pub at_least_one : ℕ → ℕ
at_least_one zero = 1
at_least_one (suc d) = suc d

-- The durations that `Spi::new` stores, and the levels that it gives the pins first.
pub new : ℕ → ℕ → Cpol → Cpha → M Pin Spi
new max_sck_freq cs_high_time cpol cpha = do
  emit (Event.set_level ncs true)
  emit (Event.set_level sck (idle cpol))
  emit (Event.set_level mosi false)
  emit (Event.set_as_input miso)
  pure (record {
    min_sck_half_cycle = at_least_one (max_sck_freq / 2);
    cs_high_time = at_least_one cs_high_time;
    cpol = cpol;
    cpha = cpha;
  })

module _ (sense : Pin → History Pin → Level) (spi : Spi) where
  open spi use {min_sck_half_cycle, cs_high_time, cpha}

  -- One round of the loop over `bit_pos`, with `rx` before and after it.
  unfoldable pub transmit_bit : ℕ → ℕ → ℕ → M Pin ℕ
  transmit_bit tx bit_pos rx = do
    when (is_1 cpha) (emit (Event.toggle sck))
    emit (Event.set_level mosi (bit_at tx bit_pos))
    emit (Event.block_for min_sck_half_cycle)
    emit (Event.toggle sck)
    level ← get_level sense miso
    emit (Event.block_for min_sck_half_cycle)
    when (is_0 cpha) (emit (Event.toggle sck))
    pure (bit_or rx (place level bit_pos))

  -- The loop for the `n` low bits.
  unfoldable pub transmit_bits : ℕ → ℕ → ℕ → M Pin ℕ
  transmit_bits zero tx rx = pure rx
  transmit_bits (suc bit_pos) tx rx = do
    rx' ← transmit_bit tx bit_pos rx
    transmit_bits bit_pos tx rx'

  unfoldable pub transmit_byte : ℕ → M Pin ℕ
  transmit_byte tx = transmit_bits 8 tx 0

  -- The loop over `zip_longest`: the bytes to send, and the buffer, whose content is replaced.
  -- A missing byte is sent as 0, and a byte received past the buffer is dropped.
  unfoldable pub transmit_all : List ℕ → List ℕ → M Pin (List ℕ)
  transmit_all [] [] = pure []
  transmit_all [] (_ ∷ rx) = do
    received ← transmit_byte 0
    rest ← transmit_all [] rx
    pure (received ∷ rest)
  transmit_all (t ∷ tx) [] = do discard ← transmit_byte t; transmit_all tx []
  transmit_all (t ∷ tx) (_ ∷ rx) = do
    received ← transmit_byte t
    rest ← transmit_all tx rx
    pure (received ∷ rest)

  unfoldable pub transmit : List ℕ → List ℕ → M Pin (List ℕ)
  transmit tx rx = do
    emit (Event.toggle ncs)
    when (is_1 cpha) (emit (Event.block_for min_sck_half_cycle))
    received ← transmit_all tx rx
    when (is_0 cpha) (emit (Event.block_for min_sck_half_cycle))
    emit (Event.toggle ncs)
    emit (Event.block_for cs_high_time)
    pure received

  unfoldable pub write : List ℕ → M Pin (List ℕ)
  write tx = transmit tx []

  unfoldable pub read : List ℕ → M Pin (List ℕ)
  read rx = transmit [] rx
