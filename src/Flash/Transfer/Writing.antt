-- ===== src/Flash/Transfer/Writing.antt =====
-- src/flash.rs, module `transfer`: the transfers that program and erase memory.
use embassy_sandbox.Prelude.{ℕ, some}
use embassy_sandbox.Qspi.{QspiWidth, TransferConfig, Hal}
use embassy_sandbox.Flash.Mode.{Mode, single, into_width}
use embassy_sandbox.Flash.Instruction

module _ (hal : Hal) where
  open hal use {DummyCycles, dummy_2, dummy_8, default_config}

  abbrev Config : Type 0
  Config = TransferConfig DummyCycles

  unfoldable pub se : Mode → ℕ → Config
  se mode address = record default_config {
    instruction = Instruction.se;
    address = some address;
    iwidth = into_width mode;
    awidth = into_width mode;
  }

  unfoldable pub be32k : Mode → ℕ → Config
  be32k mode address = record default_config {
    instruction = Instruction.be32k;
    address = some address;
    iwidth = into_width mode;
    awidth = into_width mode;
  }

  unfoldable pub be : Mode → ℕ → Config
  be mode address = record default_config {
    instruction = Instruction.be;
    address = some address;
    iwidth = into_width mode;
    awidth = into_width mode;
  }

  unfoldable pub ce : Mode → Config
  ce mode = record default_config { instruction = Instruction.ce; iwidth = into_width mode }

  unfoldable pub pp : Mode → ℕ → Config
  pp mode address = record default_config {
    instruction = Instruction.pp;
    address = some address;
    iwidth = into_width mode;
    awidth = into_width mode;
    dwidth = into_width mode;
  }

  unfoldable pub _4pp : ℕ → Config
  _4pp address = record default_config {
    instruction = Instruction._4pp;
    address = some address;
    iwidth = into_width single;
    awidth = QspiWidth.quad;
    dwidth = QspiWidth.quad;
  }
