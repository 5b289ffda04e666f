-- ===== src/Flash/Transfer/Control.antt =====
-- src/flash.rs, module `transfer`: the commands with no operand: write enable, modes, power, suspend, reset.
use embassy_sandbox.Qspi.{TransferConfig, Hal}
use embassy_sandbox.Flash.Mode.{Mode, single, quad, into_width}
use embassy_sandbox.Flash.Instruction

module _ (hal : Hal) where
  open hal use {DummyCycles, dummy_2, dummy_8, default_config}

  abbrev Config : Type 0
  Config = TransferConfig DummyCycles

  unfoldable pub wren : Mode → Config
  wren mode = record default_config { instruction = Instruction.wren; iwidth = into_width mode }

  unfoldable pub wrdi : Mode → Config
  wrdi mode = record default_config { instruction = Instruction.wrdi; iwidth = into_width mode }

  unfoldable pub fmen : Mode → Config
  fmen mode = record default_config { instruction = Instruction.fmen; iwidth = into_width mode }

  unfoldable pub rdp : Mode → Config
  rdp mode = record default_config { instruction = Instruction.rdp; iwidth = into_width mode }

  unfoldable pub en4b : Mode → Config
  en4b mode = record default_config { instruction = Instruction.en4b; iwidth = into_width mode }

  unfoldable pub ex4b : Mode → Config
  ex4b mode = record default_config { instruction = Instruction.ex4b; iwidth = into_width mode }

  unfoldable pub eqio : Config
  eqio = record default_config { instruction = Instruction.eqio; iwidth = into_width single }

  unfoldable pub rstqio : Config
  rstqio = record default_config { instruction = Instruction.rstqio; iwidth = into_width quad }

  unfoldable pub dp : Mode → Config
  dp mode = record default_config { instruction = Instruction.dp; iwidth = into_width mode }

  unfoldable pub enso : Mode → Config
  enso mode = record default_config { instruction = Instruction.enso; iwidth = into_width mode }

  unfoldable pub exso : Mode → Config
  exso mode = record default_config { instruction = Instruction.exso; iwidth = into_width mode }

  unfoldable pub pgm_ers_suspend : Mode → Config
  pgm_ers_suspend mode = record default_config {
    instruction = Instruction.pgm_ers_suspend;
    iwidth = into_width mode;
  }

  unfoldable pub pgm_ers_resume : Mode → Config
  pgm_ers_resume mode = record default_config {
    instruction = Instruction.pgm_ers_resume;
    iwidth = into_width mode;
  }

  unfoldable pub nop : Mode → Config
  nop mode = record default_config { instruction = Instruction.nop; iwidth = into_width mode }

  unfoldable pub rsten : Mode → Config
  rsten mode = record default_config { instruction = Instruction.rsten; iwidth = into_width mode }

  unfoldable pub rst : Mode → Config
  rst mode = record default_config { instruction = Instruction.rst; iwidth = into_width mode }
