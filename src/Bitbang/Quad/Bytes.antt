-- ===== src/Bitbang/Quad/Bytes.antt =====
-- `QuadSpi` of src/bitbang.rs, as far as single bytes: the modes of the pins, and a byte on one
-- line or on four.
use embassy_sandbox.Prelude.{
  ℕ, zero, suc, ◌*◌, ◌/◌, ◌%◌, ◌^◌, true, false, List, [], ◌∷◌, bit_and, bit_or,
}
use embassy_sandbox.Bitbang.Wire.{
  Level, Event, History, M, ◌>>=◌, ◌>>◌, pure, emit, when, get_level,
}
use embassy_sandbox.Bitbang.Types.{Cpol, Cpha, idle, is_0, is_1}
use embassy_sandbox.Bitbang.Bits.{bit_at, place}

pub data Pin : Type 0 where
  ncs sck d0_mosi d1_miso d2_nwp d3_nhold : Pin

pub record QuadSpi : Type 0 where
  pub min_sck_half_cycle : ℕ
  pub cs_high_time : ℕ
  pub cpol : Cpol
  pub cpha : Cpha

unfoldable pub single_mode : M Pin (Unit {0})
single_mode = do
  emit (Event.set_level d0_mosi false)
  emit (Event.set_as_output d0_mosi)
  emit (Event.set_as_input d1_miso)
  emit (Event.set_level d2_nwp true)
  emit (Event.set_as_output d2_nwp)
  emit (Event.set_level d3_nhold true)
  emit (Event.set_as_output d3_nhold)

unfoldable pub quad_read_mode : M Pin (Unit {0})
quad_read_mode = do
  emit (Event.set_as_input d0_mosi)
  emit (Event.set_as_input d1_miso)
  emit (Event.set_as_input d2_nwp)
  emit (Event.set_as_input d3_nhold)

unfoldable pub quad_write_mode : M Pin (Unit {0})
quad_write_mode = do
  emit (Event.set_level d0_mosi false)
  emit (Event.set_level d1_miso false)
  emit (Event.set_level d2_nwp false)
  emit (Event.set_level d3_nhold false)
  emit (Event.set_as_output d0_mosi)
  emit (Event.set_as_output d1_miso)
  emit (Event.set_as_output d2_nwp)
  emit (Event.set_as_output d3_nhold)

abbrev at_least_one : ℕ → ℕ
at_least_one zero = 1
at_least_one (suc d) = suc d

-- The pins d0 to d3 are made `Flex` pins, which sets no level. The speed of the outputs is not
-- modelled.
unfoldable pub new : ℕ → ℕ → Cpol → Cpha → M Pin QuadSpi
unfolding single_mode idle
new max_sck_freq cs_high_time cpol cpha = do
  emit (Event.set_level ncs true)
  emit (Event.set_level sck (idle cpol))
  single_mode
  pure (record {
    min_sck_half_cycle = at_least_one (max_sck_freq / 2);
    cs_high_time = at_least_one cs_high_time;
    cpol = cpol;
    cpha = cpha;
  })

-- The pins in the order of the bits of a nibble.
abbrev pub lanes : List (ℕ × Pin)
lanes = (0, d0_mosi) ∷ (1, d1_miso) ∷ (2, d2_nwp) ∷ (3, d3_nhold) ∷ []

abbrev pub drive : ℕ → List (ℕ × Pin) → M Pin (Unit {0})
drive tx [] = pure tt
drive tx ((shift, pin) ∷ rest) = do emit (Event.set_level pin (bit_at tx shift)); drive tx rest

module _ (sense : Pin → History Pin → Level) (spi : QuadSpi) where
  open spi use {min_sck_half_cycle, cpha}

  -- One round of the loop of `single_transmit_byte_`.
  unfoldable pub single_bit : ℕ → ℕ → ℕ → M Pin ℕ
  single_bit tx bit_pos rx = do
    when (is_1 cpha) (emit (Event.toggle sck))
    emit (Event.set_level d0_mosi (bit_at tx bit_pos))
    emit (Event.block_for min_sck_half_cycle)
    emit (Event.toggle sck)
    level ← get_level sense d1_miso
    emit (Event.block_for min_sck_half_cycle)
    when (is_0 cpha) (emit (Event.toggle sck))
    pure (bit_or rx (place level bit_pos))

  unfoldable pub single_bits : ℕ → ℕ → ℕ → M Pin ℕ
  single_bits zero tx rx = pure rx
  single_bits (suc bit_pos) tx rx = do rx' ← single_bit tx bit_pos rx; single_bits bit_pos tx rx'

  unfoldable pub single_transmit_byte_ : ℕ → M Pin ℕ
  single_transmit_byte_ tx = single_bits 8 tx 0

  unfoldable pub dummy_cycle : M Pin (Unit {0})
  dummy_cycle = do
    when (is_1 cpha) (emit (Event.toggle sck))
    emit (Event.block_for min_sck_half_cycle)
    emit (Event.toggle sck)
    emit (Event.block_for min_sck_half_cycle)
    when (is_0 cpha) (emit (Event.toggle sck))

  -- One round of the loop of `quad_write_byte_`: half 1 is the high nibble.
  unfoldable pub write_half : ℕ → ℕ → M Pin (Unit {0})
  write_half half tx = do
    when (is_1 cpha) (emit (Event.toggle sck))
    drive (bit_and (tx / 2 ^ (half * 4)) 0b1111) lanes
    emit (Event.block_for min_sck_half_cycle)
    emit (Event.toggle sck)
    emit (Event.block_for min_sck_half_cycle)
    when (is_0 cpha) (emit (Event.toggle sck))

  unfoldable pub quad_write_byte_ : ℕ → M Pin (Unit {0})
  quad_write_byte_ tx = do write_half 1 tx; write_half 0 tx

  abbrev pub gather : ℕ → List (ℕ × Pin) → M Pin ℕ
  gather rx [] = pure rx
  gather rx ((shift, pin) ∷ rest) = do
    level ← get_level sense pin
    gather (bit_or rx (place level shift)) rest

  -- One round of the loop of `quad_read_byte_`; `rx` is shifted as a `u8`.
  unfoldable pub read_half : ℕ → ℕ → M Pin ℕ
  read_half half rx = do
    when (is_1 cpha) (emit (Event.toggle sck))
    emit (Event.block_for min_sck_half_cycle)
    emit (Event.toggle sck)
    emit (Event.block_for min_sck_half_cycle)
    gathered ← gather rx lanes
    when (is_0 cpha) (emit (Event.toggle sck))
    pure (gathered * 2 ^ (4 * half) % 2 ^ 8)

  unfoldable pub quad_read_byte_ : M Pin ℕ
  quad_read_byte_ = do high ← read_half 1 0; read_half 0 high
