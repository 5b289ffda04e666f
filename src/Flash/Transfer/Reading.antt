-- ===== src/Flash/Transfer/Reading.antt =====
-- src/flash.rs, module `transfer`: the transfers that read memory.
use embassy_sandbox.Prelude.{ℕ, some}
use embassy_sandbox.Qspi.{QspiWidth, TransferConfig, Hal}
use embassy_sandbox.Flash.Mode.{Mode, single, into_width}
use embassy_sandbox.Flash.Instruction

module _ (hal : Hal) where
  open hal use {DummyCycles, dummy_2, dummy_8, default_config}

  abbrev Config : Type 0
  Config = TransferConfig DummyCycles

  unfoldable pub read : ℕ → Config
  read address = record default_config {
    instruction = Instruction.read;
    address = some address;
    iwidth = into_width single;
    awidth = into_width single;
    dwidth = into_width single;
  }

  unfoldable pub fast_read : ℕ → DummyCycles → Config
  fast_read address dummy = record default_config {
    instruction = Instruction.fast_read;
    address = some address;
    dummy = dummy;
    iwidth = into_width single;
    awidth = into_width single;
    dwidth = into_width single;
  }

  unfoldable pub dread : ℕ → DummyCycles → Config
  dread address dummy = record default_config {
    instruction = Instruction.dread;
    address = some address;
    dummy = dummy;
    iwidth = into_width single;
    awidth = into_width single;
    dwidth = QspiWidth.dual;
  }

  unfoldable pub _2read : ℕ → DummyCycles → Config
  _2read address dummy = record default_config {
    instruction = Instruction._2read;
    address = some address;
    dummy = dummy;
    iwidth = into_width single;
    awidth = QspiWidth.dual;
    dwidth = QspiWidth.dual;
  }

  unfoldable pub qread : ℕ → DummyCycles → Config
  qread address dummy = record default_config {
    instruction = Instruction.qread;
    address = some address;
    dummy = dummy;
    iwidth = into_width single;
    awidth = into_width single;
    dwidth = QspiWidth.quad;
  }

  unfoldable pub _4read : Mode → ℕ → DummyCycles → Config
  _4read mode address dummy = record default_config {
    instruction = Instruction._4read;
    address = some address;
    dummy = dummy;
    iwidth = into_width mode;
    awidth = QspiWidth.quad;
    dwidth = QspiWidth.quad;
  }

  unfoldable pub fastdtrd : ℕ → DummyCycles → Config
  fastdtrd address dummy = record default_config {
    instruction = Instruction.fastdtrd;
    address = some address;
    dummy = dummy;
    iwidth = into_width single;
    awidth = QspiWidth.sing;
    dwidth = QspiWidth.sing;
  }

  unfoldable pub _2dtrd : ℕ → DummyCycles → Config
  _2dtrd address dummy = record default_config {
    instruction = Instruction._2dtrd;
    address = some address;
    dummy = dummy;
    iwidth = into_width single;
    awidth = QspiWidth.dual;
    dwidth = QspiWidth.dual;
  }

  unfoldable pub _4dtrd : Mode → ℕ → DummyCycles → Config
  _4dtrd mode address dummy = record default_config {
    instruction = Instruction._4dtrd;
    address = some address;
    dummy = dummy;
    iwidth = into_width mode;
    awidth = QspiWidth.quad;
    dwidth = QspiWidth.quad;
  }

  unfoldable pub rdsfdp : Mode → ℕ → Config
  rdsfdp mode address = record default_config {
    instruction = Instruction.rdsfdp;
    address = some address;
    iwidth = into_width mode;
    awidth = into_width mode;
    dwidth = into_width mode;
  }
