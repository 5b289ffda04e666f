-- ===== src/Flash/Setup.antt =====
-- `Device::new` of src/flash.rs. The pins, the peripheral and the arithmetic on `f32` are parameters.
pub mod Laws
pub mod Session
use embassy_sandbox.Prelude.{
  ℕ, zero, suc, ◌*◌, ◌/◌, Bool, true, false, Option, none, some, ltb, ◌==◌, if◌then◌else◌,
}
use embassy_sandbox.Prelude.{List, Outcome, done, panic, ◌>>=◌, ◌>>◌, assert}
use embassy_sandbox.Qspi.{AddressSize, Hal}
use embassy_sandbox.Flash.Mode.{single}
use embassy_sandbox.Flash.Transfer
use embassy_sandbox.Flash.Device.{Device}

-- `qspi::enums::ChipSelectHighTime`.
pub data ChipSelectHighTime : Type 0 where
  _1cycle _2cycle _3cycle _4cycle _5cycle _6cycle _7cycle _8cycle : ChipSelectHighTime

-- `qspi::Config`; the threshold of the queue is always one byte.
pub record Config (hal : Hal) : Type 0 where
  pub memory_size : hal.MemorySize
  pub address_size : AddressSize
  pub prescaler : ℕ
  pub cs_high_time : ChipSelectHighTime

pub record ExtendedPins (Pin : Type 0) : Type 0 where
  pub nwp : Pin
  pub nreset : Pin

pub record Board (hal : Hal) : Type 1 where
  pub Pin : Type 0
  -- `gpio::Output::new` at the high level, kept by `forget`.
  pub hold_high : Pin → hal.Bus → hal.Bus
  pub new_bank1 : Config hal → hal.Bus → hal.Bus
  -- `(ns as f32 / 1e9 * freq as f32).ceil() as u32`.
  pub cycles_of : ℕ → ℕ → ℕ

abbrev pub cs_high_time_ns : ℕ
cs_high_time_ns = 30

abbrev pub max_freq : ℕ
max_freq = 60 * 1000000

-- The `match` on the number of cycles.
unfoldable pub high_time : ℕ → Outcome ChipSelectHighTime
high_time cycles =
    if ltb cycles 2
    then done _1cycle
    else if cycles == 2
    then done _2cycle
    else if cycles == 3
    then done _3cycle
    else if cycles == 4
    then done _4cycle
    else if cycles == 5
    then done _5cycle
    else if cycles == 6
    then done _6cycle
    else if cycles == 7
    then done _7cycle
    else if cycles == 8
    then done _8cycle
    else panic

-- `/` of a `Hertz` by a number.
abbrev pub divide : ℕ → ℕ → Outcome ℕ
divide a b = if b == 0 then panic else done (a / b)

module _ (hal : Hal) (board : Board hal) where
  open hal use {Bus, MemorySize, command, read_dma, after}
  open board use {Pin, hold_high, new_bank1, cycles_of}

  -- The pins that are held high: those of their own, or else the data lines 2 and 3.
  unfoldable pub hold_pins : Option (ExtendedPins Pin) → Pin → Pin → Bus → Bus
  hold_pins (some extended) d2 d3 bus = hold_high extended.nreset (hold_high extended.nwp bus)
  hold_pins none d2 d3 bus = hold_high d3 (hold_high d2 bus)

  -- The commands to the chip, whose answers are dropped.
  unfoldable pub start_up : Bus → Bus
  start_up bus0 =
      let bus1 = command (Transfer.rst hal single) (command (Transfer.rsten hal single) bus0) in
      let bus2 = command (Transfer.en4b hal single) (after (1200 * 1000) bus1) in
      let bus3 = (read_dma 3 (Transfer.rdid hal) bus2).1 in
      let bus4 = (read_dma 1 (Transfer.rdsr hal single) bus3).1 in
      (read_dma 1 (Transfer.rdcr hal single) bus4).1

  unfoldable pub new :
      MemorySize → ℕ → ℕ → Pin → Pin → Option (ExtendedPins Pin) → Bus → Outcome (Device hal)
  new size ahb_freq prescaler d2 d3 extended bus = do
    spi_freq ← divide ahb_freq prescaler
    assert (ltb spi_freq max_freq)
    cs_high_time ← high_time (cycles_of cs_high_time_ns spi_freq)
    done (record {
      size = size;
      spi = start_up (
          new_bank1
            (record {
              memory_size = size;
              address_size = AddressSize._32bit;
              prescaler = prescaler;
              cs_high_time = cs_high_time;
            })
            (hold_pins extended d2 d3 bus));
    })
