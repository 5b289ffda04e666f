-- ===== src/Bitbang/Quad/Timing.antt =====
-- When `QuadSpi` of src/bitbang.rs moves its clock and its chip select.
pub mod Phases
pub mod Session
use embassy_sandbox.Prelude.{
  ℕ, zero, suc, ◌+◌, ◌≤◌, ◌≡◌, ◌⊎◌, arith, Bool, true, false, not, Option, none, some, List, [],
  ◌∷◌,
}
use embassy_sandbox.Bitbang.Wire.{Level, Event, History, M, emit, when, pure, ◌>>=◌, ◌>>◌}
use embassy_sandbox.Bitbang.Types.{Cpha, is_0, is_1}
use embassy_sandbox.Bitbang.Config.{Mode, QuadTransfer, address_bytes}
use embassy_sandbox.Bitbang.Quad.Clocks.{opened}
use embassy_sandbox.Qspi.{AddressSize}
use embassy_sandbox.Bitbang.Quad.Bytes.{
  Pin, ncs, sck, QuadSpi, single_mode, quad_read_mode, quad_write_mode,
}
use embassy_sandbox.Bitbang.Quad.Bytes.{single_bit, single_bits, single_transmit_byte_, dummy_cycle}
use embassy_sandbox.Bitbang.Quad.Bytes.{write_half, quad_write_byte_, read_half, quad_read_byte_}
use embassy_sandbox.Bitbang.Quad.Transfers.{
  Direction, single_transmit_, single_transmit_in_place_, quad_read_, quad_write_,
}
use embassy_sandbox.Bitbang.Quad.Transfers.{
  transfer_, framed, instruction_phase, address_phase, single_transfer, single_transfer_in_place,
}
use embassy_sandbox.Bitbang.Quad.Transfers.{
  dummy_phase, data_phase, quad_transfer, single_read_, single_write_,
}

-- The time that was waited since the latest clock edge.
abbrev pub since_edge : History Pin → ℕ
since_edge [] = 0
since_edge (Event.toggle sck ∷ h) = 0
since_edge (Event.block_for d ∷ h) = d + since_edge h
since_edge (_ ∷ h) = since_edge h

-- Whether the chip is selected.
abbrev pub selected : History Pin → Bool
selected [] = false
selected (Event.set_level ncs level ∷ h) = not level
selected (_ ∷ h) = selected h

-- The time that was waited since the chip select was last set.
abbrev pub since_select : History Pin → ℕ
since_select [] = 0
since_select (Event.set_level ncs level ∷ h) = 0
since_select (Event.block_for d ∷ h) = d + since_select h
since_select (_ ∷ h) = since_select h

-- Whether the chip was ever selected.
abbrev pub used : History Pin → Bool
used [] = false
used (Event.set_level ncs false ∷ h) = true
used (_ ∷ h) = used h

module _ (spi : QuadSpi) where
  open spi use {min_sck_half_cycle, cs_high_time, cpha}

  -- Each clock edge comes half a cycle after the one before it and while the chip is selected, and
  -- each selection but the first comes after the time that the chip select has to be high.
  abbrev pub InTime : History Pin → Type 0
  InTime [] = Unit
  InTime (Event.toggle sck ∷ h) =
      (min_sck_half_cycle ≤ since_edge h) × (selected h ≡ true) × InTime h
  InTime (Event.set_level ncs false ∷ h) =
      (selected h ≡ false) × ((used h ≡ false) ⊎ (cs_high_time ≤ since_select h)) × InTime h
  InTime (_ ∷ h) = InTime h

  -- Between two transfers.
  abbrev pub Rests : History Pin → Type 0
  Rests h = (selected h ≡ false) × ((used h ≡ false) ⊎ (cs_high_time ≤ since_select h)) × InTime h

  -- Between two clock cycles: with phase 1 the next one begins with an edge.
  abbrev WaitsFor : Cpha → History Pin → Type 0
  WaitsFor Cpha._0 h = Unit
  WaitsFor Cpha._1 h = min_sck_half_cycle ≤ since_edge h

  unfoldable pub Runs : History Pin → Type 0
  Runs h = WaitsFor cpha h × (selected h ≡ true) × InTime h

  unfoldable pub Keeps : {A : Type 0} → M Pin A → Type 0
  unfolding Runs
  Keeps m = (h : History Pin) → Runs h → Runs (m h).1

  module _ (sense : Pin → History Pin → Level) where
    single_bit-Keeps : (tx pos rx : ℕ) → Keeps (single_bit sense spi tx pos rx)
    unfolding Keeps single_bit
    single_bit-Keeps tx pos rx h r = ground arith

    pub dummy_cycle-Keeps : Keeps (dummy_cycle sense spi)
    unfolding Keeps dummy_cycle
    dummy_cycle-Keeps h r = ground arith

    pub write_half-Keeps : (half tx : ℕ) → Keeps (write_half sense spi half tx)
    unfolding Keeps write_half
    write_half-Keeps half tx h r = ground arith

    pub read_half-Keeps : (half rx : ℕ) → Keeps (read_half sense spi half rx)
    unfolding Keeps read_half
    read_half-Keeps half rx h r = ground arith

    pub pure-Keeps : {A : Type 0} (a : A) → Keeps (pure a)
    unfolding Keeps
    pure-Keeps a h r = r

    pub bind-Keeps :
        {A B : Type 0} (m : M Pin A) (f : A → M Pin B)
        → Keeps m
        → ((a : A) → Keeps (f a))
        → Keeps (m >>= f)
    unfolding Keeps
    bind-Keeps m f k l h r = l (m h).0 (m h).1 (k h r)

    pub then-Keeps :
        {B : Type 0} (m : M Pin (Unit {0})) (k : M Pin B) → Keeps m → Keeps k → Keeps (m >> k)
    unfolding Keeps
    then-Keeps m k p q h r = q (m h).1 (p h r)

    pub single_mode-Keeps : Keeps single_mode
    unfolding Keeps single_mode
    single_mode-Keeps h r = ground arith

    pub quad_read_mode-Keeps : Keeps quad_read_mode
    unfolding Keeps quad_read_mode
    quad_read_mode-Keeps h r = ground arith

    pub quad_write_mode-Keeps : Keeps quad_write_mode
    unfolding Keeps quad_write_mode
    quad_write_mode-Keeps h r = ground arith

    single_bits-Keeps : (n tx rx : ℕ) → Keeps (single_bits sense spi n tx rx)
    unfolding single_bits
    single_bits-Keeps zero tx rx = pure-Keeps rx
    single_bits-Keeps (suc n) tx rx =
        bind-Keeps (single_bit sense spi tx n rx) _ (single_bit-Keeps tx n rx)
          (λ rx'. single_bits-Keeps n tx rx')

    pub byte-Keeps : (tx : ℕ) → Keeps (single_transmit_byte_ sense spi tx)
    unfolding single_transmit_byte_
    byte-Keeps tx = single_bits-Keeps 8 tx 0

    selects : (h : History Pin) → Rests h → Runs (opened sense spi h)
    unfolding Runs single_mode
    selects h r = ground arith

    deselects :
        (h : History Pin)
        → Runs h
        → Rests (
            Event.block_for cs_high_time
            ∷ Event.set_level ncs true
            ∷ (when (is_0 cpha) (emit (Event.block_for min_sck_half_cycle)) h).1)
    unfolding Runs
    deselects h r = ground arith

    pub framed-Rests :
        (body : M Pin (List ℕ))
        → Keeps body
        → (h : History Pin) → Rests h
        → Rests (framed sense spi body h).1
    unfolding framed Keeps
    framed-Rests body k h r =
        deselects (body (opened sense spi h)).1 (k (opened sense spi h) (selects h r))
