-- ===== src/Bitbang/Types.antt =====
-- The clock modes of src/bitbang.rs.
use embassy_sandbox.Prelude.{Bool, true, false}
use embassy_sandbox.Bitbang.Wire.{Level}

pub data Cpol : Type 0 where
  _0 _1 : Cpol

pub data Cpha : Type 0 where
  _0 _1 : Cpha

-- `Cpol::idle`.
unfoldable pub idle : Cpol → Level
idle Cpol._0 = false
idle Cpol._1 = true

-- `cpha == Cpha::_0` and `cpha == Cpha::_1`.
abbrev pub is_0 : Cpha → Bool
is_0 Cpha._0 = true
is_0 Cpha._1 = false

abbrev pub is_1 : Cpha → Bool
is_1 Cpha._0 = false
is_1 Cpha._1 = true
