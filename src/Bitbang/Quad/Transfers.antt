-- ===== src/Bitbang/Quad/Transfers.antt =====
-- `QuadSpi` of src/bitbang.rs: the loops over bytes and the phases of a transfer.
use embassy_sandbox.Prelude.{ℕ, zero, suc, true, false, Option, none, some, List, [], ◌∷◌}
use embassy_sandbox.Bitbang.Wire.{Level, Event, History, M, ◌>>=◌, ◌>>◌, pure, emit, when}
use embassy_sandbox.Bitbang.Types.{is_0, is_1}
use embassy_sandbox.Bitbang.Config.{Mode, QuadTransfer, address_bytes}
use embassy_sandbox.Qspi.{AddressSize}
use embassy_sandbox.Bitbang.Quad.Bytes.{
  Pin, ncs, QuadSpi, single_mode, quad_read_mode, quad_write_mode,
}
use embassy_sandbox.Bitbang.Quad.Bytes.{single_transmit_byte_, dummy_cycle, quad_write_byte_}
use embassy_sandbox.Bitbang.Quad.Bytes.{quad_read_byte_}

-- A buffer to fill, or bytes to send.
pub data Direction : Type 0 where
  read write : List ℕ → Direction

module _ (sense : Pin → History Pin → Level) (spi : QuadSpi) where
  open spi use {min_sck_half_cycle, cs_high_time, cpha}

  -- The loop over `zip_longest`, as in `Spi::transmit`.
  unfoldable pub single_transmit_ : List ℕ → List ℕ → M Pin (List ℕ)
  single_transmit_ [] [] = pure []
  single_transmit_ [] (_ ∷ rx) = do
    received ← single_transmit_byte_ sense spi 0
    rest ← single_transmit_ [] rx
    pure (received ∷ rest)
  single_transmit_ (t ∷ tx) [] = do
    discard ← single_transmit_byte_ sense spi t
    single_transmit_ tx []
  single_transmit_ (t ∷ tx) (_ ∷ rx) = do
    received ← single_transmit_byte_ sense spi t
    rest ← single_transmit_ tx rx
    pure (received ∷ rest)

  unfoldable pub single_transmit_in_place_ : List ℕ → M Pin (List ℕ)
  single_transmit_in_place_ [] = pure []
  single_transmit_in_place_ (t ∷ trx) = do
    received ← single_transmit_byte_ sense spi t
    rest ← single_transmit_in_place_ trx
    pure (received ∷ rest)

  unfoldable pub single_read_ : List ℕ → M Pin (List ℕ)
  single_read_ rx = single_transmit_ [] rx

  unfoldable pub single_write_ : List ℕ → M Pin (List ℕ)
  single_write_ tx = single_transmit_ tx []

  unfoldable pub quad_read_ : List ℕ → M Pin (List ℕ)
  quad_read_ [] = pure []
  quad_read_ (_ ∷ rx) = do
    received ← quad_read_byte_ sense spi
    rest ← quad_read_ rx
    pure (received ∷ rest)

  unfoldable pub quad_write_ : List ℕ → M Pin (List ℕ)
  quad_write_ [] = pure []
  quad_write_ (t ∷ tx) = do quad_write_byte_ sense spi t; quad_write_ tx

  -- The buffer of a read is returned filled; a write returns no bytes.
  unfoldable pub transfer_ : Direction → Mode → M Pin (List ℕ)
  transfer_ (Direction.read rx) Mode.single = do single_mode; single_read_ rx
  transfer_ (Direction.write tx) Mode.single = do single_mode; single_write_ tx
  transfer_ (Direction.read rx) Mode.quad = do quad_read_mode; quad_read_ rx
  transfer_ (Direction.write tx) Mode.quad = do quad_write_mode; quad_write_ tx

  -- What stands before and after every transfer.
  unfoldable pub framed : M Pin (List ℕ) → M Pin (List ℕ)
  framed body = do
    single_mode
    emit (Event.set_level ncs false)
    when (is_1 cpha) (emit (Event.block_for min_sck_half_cycle))
    received ← body
    when (is_0 cpha) (emit (Event.block_for min_sck_half_cycle))
    emit (Event.set_level ncs true)
    emit (Event.block_for cs_high_time)
    pure received

  unfoldable pub single_transfer : List ℕ → List ℕ → M Pin (List ℕ)
  single_transfer tx rx = framed (single_transmit_ tx rx)

  unfoldable pub single_read : List ℕ → M Pin (List ℕ)
  single_read rx = single_transfer [] rx

  unfoldable pub single_write : List ℕ → M Pin (List ℕ)
  single_write tx = single_transfer tx []

  unfoldable pub single_transfer_in_place : List ℕ → M Pin (List ℕ)
  single_transfer_in_place trx = framed (single_transmit_in_place_ trx)

  unfoldable pub instruction_phase : Option (ℕ × Mode) → M Pin (List ℕ)
  instruction_phase none = pure []
  instruction_phase (some (instruction, mode)) = transfer_ (Direction.write (instruction ∷ [])) mode

  unfoldable pub address_phase : Option (ℕ × Mode × AddressSize) → M Pin (List ℕ)
  address_phase none = pure []
  address_phase (some (address, mode, size)) =
      transfer_ (Direction.write (address_bytes address size)) mode

  unfoldable pub dummy_phase : ℕ → M Pin (Unit {0})
  dummy_phase zero = pure tt
  dummy_phase (suc n) = do dummy_cycle sense spi; dummy_phase n

  -- Without a data phase the buffer is left as it is.
  unfoldable pub data_phase : Direction → Option Mode → M Pin (List ℕ)
  data_phase (Direction.read rx) none = pure rx
  data_phase (Direction.write tx) none = pure []
  data_phase direction (some mode) = transfer_ direction mode

  unfoldable pub quad_transfer : Direction → QuadTransfer → M Pin (List ℕ)
  quad_transfer direction transfer = framed (do
    sent ← instruction_phase transfer.instruction
    addressed ← address_phase transfer.address
    dummy_phase transfer.dummy_cycles
    data_phase direction transfer.bytes)

  unfoldable pub quad_read : List ℕ → QuadTransfer → M Pin (List ℕ)
  quad_read rx transfer = quad_transfer (Direction.read rx) transfer

  unfoldable pub quad_write : List ℕ → QuadTransfer → M Pin (List ℕ)
  quad_write tx transfer = quad_transfer (Direction.write tx) transfer
