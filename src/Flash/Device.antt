-- ===== src/Flash/Device.antt =====
-- `Device` of src/flash.rs: its record, the wait for the chip, and the operations that take no
-- loop of their own. `spi` and `&mut self` are the bus, passed on from call to call.
pub mod Wait
use embassy_sandbox.Prelude.{ℕ, zero, suc, ◌+◌, ◌*◌, ◌%◌, ◌^◌, ltb, if◌then◌else◌, get_or, List}
use embassy_sandbox.Prelude.{Outcome, done, panic, starved, ◌>>=◌, ◌>>◌, assert}
use embassy_sandbox.Qspi.{Hal}
use embassy_sandbox.Flash.Mode.{single}
use embassy_sandbox.Flash.Flags.{wip}
use embassy_sandbox.Flash.Transfer

module _ (hal : Hal) where
  open hal use {Bus, MemorySize, size_code, flags_contain, command, read_dma, write_dma, after}

  pub record Device : Type 0 where
    pub size : MemorySize
    pub spi : Bus

  -- `1 << code << 1` on `u32`; a shift by 32 or more panics.
  unfoldable pub size_in_bytes : Device → Outcome ℕ
  size_in_bytes device =
      if ltb (size_code device.size) 32
      then done (2 ^ size_code device.size % 2 ^ 32 * 2 % 2 ^ 32)
      else panic

  -- The loop of `wait_write_done`, with the register as last read and the polls left.
  unfoldable pub poll : ℕ → ℕ → ℕ → Bus → Outcome Bus
  poll zero delay sr bus = starved
  poll (suc polls) delay sr bus =
      let (bytes, bus') = read_dma 1 (Transfer.rdsr hal single) bus in
      let sr' = get_or bytes 0 sr in
      let again = poll polls delay sr' (after delay bus') in
      if flags_contain sr' wip then again else done bus'

  unfoldable pub wait_write_done : ℕ → ℕ → Bus → Outcome Bus
  wait_write_done polls delay bus = poll polls delay wip bus

  unfoldable pub read : ℕ → ℕ → Bus → List ℕ × Bus
  read length address bus = read_dma length (Transfer.read hal address) bus

  unfoldable pub erase_chip : ℕ → Bus → Outcome Bus
  erase_chip polls bus =
      wait_write_done polls (100 * 1000000)
        (command (Transfer.ce hal single) (command (Transfer.wren hal single) bus))
