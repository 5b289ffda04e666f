-- ===== src/Bitbang/Quad/Timing/Phases.antt =====
-- The bytes and the phases of `QuadSpi` of src/bitbang.rs keep the clock in time.
use embassy_sandbox.Prelude.{ℕ, zero, suc, Option, none, some, List, [], ◌∷◌}
use embassy_sandbox.Bitbang.Wire.{Level, History, M, pure, ◌>>=◌}
use embassy_sandbox.Bitbang.Config.{Mode, address_bytes}
use embassy_sandbox.Qspi.{AddressSize}
use embassy_sandbox.Bitbang.Quad.Bytes.{Pin, QuadSpi}
use embassy_sandbox.Bitbang.Quad.Bytes.{quad_write_byte_, quad_read_byte_}
use embassy_sandbox.Bitbang.Quad.Transfers.{
  Direction, single_transmit_, single_transmit_in_place_, quad_read_, quad_write_,
}
use embassy_sandbox.Bitbang.Quad.Transfers.{
  transfer_, instruction_phase, address_phase, single_read_, single_write_,
}
use embassy_sandbox.Bitbang.Quad.Transfers.{dummy_phase, data_phase}
use embassy_sandbox.Bitbang.Quad.Timing.{
  Keeps, bind-Keeps, then-Keeps, pure-Keeps, single_mode-Keeps, quad_read_mode-Keeps,
  quad_write_mode-Keeps, write_half-Keeps, read_half-Keeps, dummy_cycle-Keeps, byte-Keeps,
}

module _ (spi : QuadSpi) (sense : Pin → History Pin → Level) where
  -- A byte that is kept, and others after it.
  next-Keeps :
      (m : M Pin ℕ) (others : M Pin (List ℕ))
      → Keeps spi m
      → Keeps spi others
      → Keeps spi (m >>= λ received. others >>= λ rest. pure (received ∷ rest))
  next-Keeps m others p q =
      bind-Keeps spi sense m _ p (λ received.
        bind-Keeps spi sense others _ q (λ rest. pure-Keeps spi sense (received ∷ rest)))

  pub single_transmit_-Keeps : (tx rx : List ℕ) → Keeps spi (single_transmit_ sense spi tx rx)
  unfolding single_transmit_
  single_transmit_-Keeps [] [] = pure-Keeps spi sense []
  single_transmit_-Keeps [] (r ∷ rx) =
      next-Keeps _ _ (byte-Keeps spi sense 0) (single_transmit_-Keeps [] rx)
  single_transmit_-Keeps (t ∷ tx) [] =
      bind-Keeps spi sense _ _ (byte-Keeps spi sense t) (λ discard. single_transmit_-Keeps tx [])
  single_transmit_-Keeps (t ∷ tx) (r ∷ rx) =
      next-Keeps _ _ (byte-Keeps spi sense t) (single_transmit_-Keeps tx rx)

  pub in_place_-Keeps : (trx : List ℕ) → Keeps spi (single_transmit_in_place_ sense spi trx)
  unfolding single_transmit_in_place_
  in_place_-Keeps [] = pure-Keeps spi sense []
  in_place_-Keeps (t ∷ trx) = next-Keeps _ _ (byte-Keeps spi sense t) (in_place_-Keeps trx)

  quad_read_-Keeps : (rx : List ℕ) → Keeps spi (quad_read_ sense spi rx)
  unfolding quad_read_ quad_read_byte_
  quad_read_-Keeps [] = pure-Keeps spi sense []
  quad_read_-Keeps (r ∷ rx) =
      next-Keeps _ _
        (bind-Keeps spi sense _ _ (read_half-Keeps spi sense 1 0)
          (λ high. read_half-Keeps spi sense 0 high))
        (quad_read_-Keeps rx)

  quad_write_-Keeps : (tx : List ℕ) → Keeps spi (quad_write_ sense spi tx)
  unfolding quad_write_ quad_write_byte_
  quad_write_-Keeps [] = pure-Keeps spi sense []
  quad_write_-Keeps (t ∷ tx) =
      then-Keeps spi sense _ _
        (then-Keeps spi sense _ _ (write_half-Keeps spi sense 1 t) (write_half-Keeps spi sense 0 t))
        (quad_write_-Keeps tx)

  transfer_-Keeps :
      (direction : Direction) (mode : Mode) → Keeps spi (transfer_ sense spi direction mode)
  unfolding transfer_ single_read_ single_write_
  transfer_-Keeps (Direction.read rx) Mode.single =
      then-Keeps spi sense _ _ (single_mode-Keeps spi sense) (single_transmit_-Keeps [] rx)
  transfer_-Keeps (Direction.write tx) Mode.single =
      then-Keeps spi sense _ _ (single_mode-Keeps spi sense) (single_transmit_-Keeps tx [])
  transfer_-Keeps (Direction.read rx) Mode.quad =
      then-Keeps spi sense _ _ (quad_read_mode-Keeps spi sense) (quad_read_-Keeps rx)
  transfer_-Keeps (Direction.write tx) Mode.quad =
      then-Keeps spi sense _ _ (quad_write_mode-Keeps spi sense) (quad_write_-Keeps tx)

  pub instruction_phase-Keeps : (i : Option (ℕ × Mode)) → Keeps spi (instruction_phase sense spi i)
  unfolding instruction_phase
  instruction_phase-Keeps none = pure-Keeps spi sense []
  instruction_phase-Keeps (some (i, mode)) = transfer_-Keeps (Direction.write (i ∷ [])) mode

  pub address_phase-Keeps :
      (a : Option (ℕ × Mode × AddressSize)) → Keeps spi (address_phase sense spi a)
  unfolding address_phase
  address_phase-Keeps none = pure-Keeps spi sense []
  address_phase-Keeps (some (a, mode, size)) =
      transfer_-Keeps (Direction.write (address_bytes a size)) mode

  pub dummy_phase-Keeps : (n : ℕ) → Keeps spi (dummy_phase sense spi n)
  unfolding dummy_phase
  dummy_phase-Keeps zero = pure-Keeps spi sense tt
  dummy_phase-Keeps (suc n) =
      then-Keeps spi sense _ _ (dummy_cycle-Keeps spi sense) (dummy_phase-Keeps n)

  pub data_phase-Keeps :
      (direction : Direction) (mode : Option Mode) → Keeps spi (data_phase sense spi direction mode)
  unfolding data_phase
  data_phase-Keeps (Direction.read rx) none = pure-Keeps spi sense rx
  data_phase-Keeps (Direction.write tx) none = pure-Keeps spi sense []
  data_phase-Keeps (Direction.read rx) (some mode) = transfer_-Keeps (Direction.read rx) mode
  data_phase-Keeps (Direction.write tx) (some mode) = transfer_-Keeps (Direction.write tx) mode
