-- ===== src/Flash/Transfer/Registers.antt =====
-- src/flash.rs, module `transfer`: the identity, status and configuration registers.
use embassy_sandbox.Prelude.{Bool, some, if◌then◌else◌}
use embassy_sandbox.Qspi.{QspiWidth, TransferConfig, Hal}
use embassy_sandbox.Flash.Mode.{Mode, single, quad, into_width}
use embassy_sandbox.Flash.Instruction

module _ (hal : Hal) where
  open hal use {DummyCycles, dummy_2, dummy_8, default_config}

  abbrev Config : Type 0
  Config = TransferConfig DummyCycles

  unfoldable pub rdid : Config
  rdid = record default_config {
    instruction = Instruction.rdid;
    iwidth = into_width single;
    dwidth = into_width single;
  }

  unfoldable pub res : Mode → Config
  res mode = record default_config {
    instruction = Instruction.res;
    dummy = elim mode [ single ↦ dummy_8 | quad ↦ dummy_2 ];
    iwidth = into_width mode;
    dwidth = into_width mode;
  }

  unfoldable pub rems : Bool → Config
  rems device_id_first = record default_config {
    instruction = Instruction.rems;
    address = some (if device_id_first then 1 else 0);
    iwidth = into_width single;
    awidth = QspiWidth.sing;
    dwidth = into_width single;
  }

  unfoldable pub qpiid : Config
  qpiid = record default_config {
    instruction = Instruction.qpiid;
    iwidth = into_width quad;
    dwidth = into_width quad;
  }

  unfoldable pub rdsr : Mode → Config
  rdsr mode = record default_config {
    instruction = Instruction.rdsr;
    iwidth = into_width mode;
    dwidth = into_width mode;
  }

  unfoldable pub rdcr : Mode → Config
  rdcr mode = record default_config {
    instruction = Instruction.rdcr;
    iwidth = into_width mode;
    dwidth = into_width mode;
  }

  unfoldable pub wrsr : Mode → Config
  wrsr mode = record default_config {
    instruction = Instruction.wrsr;
    iwidth = into_width mode;
    dwidth = into_width mode;
  }

  unfoldable pub rdfbr : Config
  rdfbr = record default_config {
    instruction = Instruction.rdfbr;
    iwidth = into_width single;
    dwidth = into_width single;
  }

  unfoldable pub wrfbr : Config
  wrfbr = record default_config {
    instruction = Instruction.wrfbr;
    iwidth = into_width single;
    dwidth = into_width single;
  }

  unfoldable pub esfbr : Config
  esfbr = record default_config { instruction = Instruction.esfbr; iwidth = into_width single }

  unfoldable pub rdscur : Mode → Config
  rdscur mode = record default_config {
    instruction = Instruction.rdscur;
    iwidth = into_width mode;
    dwidth = into_width mode;
  }

  unfoldable pub wrscur : Mode → Config
  wrscur mode = record default_config { instruction = Instruction.wrscur; iwidth = into_width mode }

  unfoldable pub rdlr : Config
  rdlr = record default_config {
    instruction = Instruction.rdlr;
    iwidth = into_width single;
    dwidth = into_width single;
  }

  unfoldable pub wrlr : Config
  wrlr = record default_config {
    instruction = Instruction.wrlr;
    iwidth = into_width single;
    dwidth = into_width single;
  }
