-- ===== src/Qspi.antt =====
-- What the program uses of embassy_stm32's quad SPI peripheral and of embassy_time's timer. The
-- types are the ones that src/flash.rs and src/bitbang.rs construct and match exhaustively; the
-- rest is a record of unknown operations, which the drivers take as a parameter.
use embassy_sandbox.Prelude.{ℕ, Bool, List, Option}

pub data QspiWidth : Type 0 where
  none sing dual quad : QspiWidth

pub data AddressSize : Type 0 where
  _8bit _16bit _24bit _32bit : AddressSize

pub record TransferConfig (Dummy : Type 0) : Type 0 where
  pub instruction : ℕ
  pub address : Option ℕ
  pub dummy : Dummy
  pub iwidth : QspiWidth
  pub awidth : QspiWidth
  pub dwidth : QspiWidth

pub record Hal : Type 1 where
  pub DummyCycles : Type 0
  pub dummy_2 : DummyCycles
  pub dummy_8 : DummyCycles
  -- `u8::from`.
  pub cycles : DummyCycles → ℕ
  -- `TransferConfig::default()`.
  pub default_config : TransferConfig DummyCycles
  pub MemorySize : Type 0
  -- `u8::from`.
  pub size_code : MemorySize → ℕ
  -- `contains` of a register type that the `bitflags!` macro declares.
  pub flags_contain : ℕ → ℕ → Bool
  -- The peripheral together with all that it is wired to.
  pub Bus : Type 0
  pub command : TransferConfig DummyCycles → Bus → Bus
  -- Fills a buffer of the given length.
  pub read_dma : ℕ → TransferConfig DummyCycles → Bus → List ℕ × Bus
  pub write_dma : List ℕ → TransferConfig DummyCycles → Bus → Bus
  -- `Timer::after`, in microseconds.
  pub after : ℕ → Bus → Bus
