-- ===== src/Flash/Transfer/Locks.antt =====
-- src/flash.rs, module `transfer`: the lock registers, protection bits and passwords.
use embassy_sandbox.Prelude.{ℕ, some}
use embassy_sandbox.Qspi.{TransferConfig, Hal}
use embassy_sandbox.Flash.Mode.{single, into_width}
use embassy_sandbox.Flash.Instruction

module _ (hal : Hal) where
  open hal use {DummyCycles, dummy_2, dummy_8, default_config}

  abbrev Config : Type 0
  Config = TransferConfig DummyCycles

  unfoldable pub spblk : Config
  spblk = record default_config { instruction = Instruction.spblk; iwidth = into_width single }

  unfoldable pub rdspblk : Config
  rdspblk = record default_config {
    instruction = Instruction.rdspblk;
    iwidth = into_width single;
    dwidth = into_width single;
  }

  unfoldable pub rdspb : ℕ → Config
  rdspb address = record default_config {
    instruction = Instruction.rdspb;
    address = some address;
    iwidth = into_width single;
    awidth = into_width single;
    dwidth = into_width single;
  }

  unfoldable pub esspb : Config
  esspb = record default_config { instruction = Instruction.esspb; iwidth = into_width single }

  unfoldable pub wrspb : ℕ → Config
  wrspb address = record default_config {
    instruction = Instruction.wrspb;
    address = some address;
    iwidth = into_width single;
    awidth = into_width single;
  }

  unfoldable pub rddpb : ℕ → Config
  rddpb address = record default_config {
    instruction = Instruction.rddpb;
    address = some address;
    iwidth = into_width single;
    awidth = into_width single;
    dwidth = into_width single;
  }

  unfoldable pub wrdpb : ℕ → Config
  wrdpb address = record default_config {
    instruction = Instruction.wrspb;
    address = some address;
    iwidth = into_width single;
    awidth = into_width single;
    dwidth = into_width single;
  }

  unfoldable pub gblk : Config
  gblk = record default_config { instruction = Instruction.gblk; iwidth = into_width single }

  unfoldable pub gbulk : Config
  gbulk = record default_config { instruction = Instruction.gbulk; iwidth = into_width single }

  unfoldable pub wrpass : Config
  wrpass = record default_config {
    instruction = Instruction.wrpass;
    iwidth = into_width single;
    dwidth = into_width single;
  }

  unfoldable pub rdpass : Config
  rdpass = record default_config {
    instruction = Instruction.rdpass;
    iwidth = into_width single;
    dwidth = into_width single;
  }

  unfoldable pub passulk : Config
  passulk = record default_config {
    instruction = Instruction.passulk;
    iwidth = into_width single;
    dwidth = into_width single;
  }
