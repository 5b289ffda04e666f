-- ===== src/Flash/Flags.antt =====
-- The register flags of src/flash.rs: the constants of `SR`, `CR` and `SCUR`.
use embassy_sandbox.Prelude.{ℕ, ◌^◌}

abbrev pub wip : ℕ
wip = 2 ^ 0

abbrev pub wel : ℕ
wel = 2 ^ 1

abbrev pub bp0 : ℕ
bp0 = 2 ^ 2

abbrev pub bp1 : ℕ
bp1 = 2 ^ 3

abbrev pub bp2 : ℕ
bp2 = 2 ^ 4

abbrev pub bp3 : ℕ
bp3 = 2 ^ 5

abbrev pub qe : ℕ
qe = 2 ^ 6

abbrev pub srwd : ℕ
srwd = 2 ^ 7

abbrev pub ods0 : ℕ
ods0 = 2 ^ 0

abbrev pub ods1 : ℕ
ods1 = 2 ^ 1

abbrev pub ods2 : ℕ
ods2 = 2 ^ 2

abbrev pub tb : ℕ
tb = 2 ^ 3

abbrev pub pbe : ℕ
pbe = 2 ^ 4

abbrev pub _4_byte : ℕ
_4_byte = 2 ^ 5

abbrev pub dc0 : ℕ
dc0 = 2 ^ 6

abbrev pub dc1 : ℕ
dc1 = 2 ^ 7

abbrev pub otp : ℕ
otp = 2 ^ 0

abbrev pub ldso : ℕ
ldso = 2 ^ 1

abbrev pub psb : ℕ
psb = 2 ^ 2

abbrev pub esb : ℕ
esb = 2 ^ 3

abbrev pub p_fail : ℕ
p_fail = 2 ^ 5

abbrev pub e_fail : ℕ
e_fail = 2 ^ 6

abbrev pub wpsel : ℕ
wpsel = 2 ^ 7
