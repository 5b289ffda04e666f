-- ===== src/Flash/Mode.antt =====
-- `Mode` of src/flash.rs and its conversions.
use embassy_sandbox.Prelude.{ℕ}
use embassy_sandbox.Qspi.{QspiWidth}

pub data Mode : Type 0 where
  single quad : Mode

-- `From<Mode> for QspiWidth`.
abbrev pub into_width : Mode → QspiWidth
into_width single = QspiWidth.sing
into_width quad = QspiWidth.quad

-- `From<Mode> for usize`.
abbrev pub into_usize : Mode → ℕ
into_usize single = 1
into_usize quad = 4
