-- ===== src/Flash/Instruction.antt =====
-- The instruction bytes of src/flash.rs, module `instruction`.
use embassy_sandbox.Prelude.{ℕ}

abbrev pub read : ℕ
read = 0x03

abbrev pub fast_read : ℕ
fast_read = 0x0B

abbrev pub _2read : ℕ
_2read = 0xBB

abbrev pub dread : ℕ
dread = 0x3B

abbrev pub _4read : ℕ
_4read = 0xEB

abbrev pub qread : ℕ
qread = 0x6B

abbrev pub fastdtrd : ℕ
fastdtrd = 0x0D

abbrev pub _2dtrd : ℕ
_2dtrd = 0xBD

abbrev pub _4dtrd : ℕ
_4dtrd = 0xED

abbrev pub pp : ℕ
pp = 0x02

abbrev pub _4pp : ℕ
_4pp = 0x38

abbrev pub se : ℕ
se = 0x20

abbrev pub be32k : ℕ
be32k = 0x52

abbrev pub be : ℕ
be = 0xD8

abbrev pub ce : ℕ
ce = 0x60

abbrev pub read4b : ℕ
read4b = 0x13

abbrev pub fast_read4b : ℕ
fast_read4b = 0x0C

abbrev pub _2read4b : ℕ
_2read4b = 0xBC

abbrev pub dread4b : ℕ
dread4b = 0x3C

abbrev pub _4read4b : ℕ
_4read4b = 0xEC

abbrev pub qread4b : ℕ
qread4b = 0x6C

abbrev pub frdtrd4b : ℕ
frdtrd4b = 0x0E

abbrev pub _2dtrd4b : ℕ
_2dtrd4b = 0xBE

abbrev pub _4dtrd4b : ℕ
_4dtrd4b = 0xEE

abbrev pub pp4b : ℕ
pp4b = 0x12

abbrev pub _4pp4b : ℕ
_4pp4b = 0x3E

abbrev pub be4b : ℕ
be4b = 0xDC

abbrev pub be32k4b : ℕ
be32k4b = 0x5C

abbrev pub se4b : ℕ
se4b = 0x21

abbrev pub wren : ℕ
wren = 0x06

abbrev pub wrdi : ℕ
wrdi = 0x04

abbrev pub fmen : ℕ
fmen = 0x41

abbrev pub rdsr : ℕ
rdsr = 0x05

abbrev pub rdcr : ℕ
rdcr = 0x15

abbrev pub wrsr : ℕ
wrsr = 0x01

abbrev pub rdear : ℕ
rdear = 0xC8

abbrev pub wrear : ℕ
wrear = 0xC5

abbrev pub wpsel : ℕ
wpsel = 0x68

abbrev pub eqio : ℕ
eqio = 0x35

abbrev pub rstqio : ℕ
rstqio = 0xF5

abbrev pub en4b : ℕ
en4b = 0xB7

abbrev pub ex4b : ℕ
ex4b = 0xE9

abbrev pub pgm_ers_suspend : ℕ
pgm_ers_suspend = 0xB0

abbrev pub pgm_ers_resume : ℕ
pgm_ers_resume = 0x30

abbrev pub dp : ℕ
dp = 0xB9

abbrev pub rdp : ℕ
rdp = 0xAB

abbrev pub sbl : ℕ
sbl = 0xC0

abbrev pub rdfbr : ℕ
rdfbr = 0x16

abbrev pub wrfbr : ℕ
wrfbr = 0x17

abbrev pub esfbr : ℕ
esfbr = 0x18

abbrev pub rdid : ℕ
rdid = 0x9F

abbrev pub res : ℕ
res = 0xAB

abbrev pub rems : ℕ
rems = 0x90

abbrev pub qpiid : ℕ
qpiid = 0xAF

abbrev pub rdsfdp : ℕ
rdsfdp = 0x5A

abbrev pub enso : ℕ
enso = 0xB1

abbrev pub exso : ℕ
exso = 0xC1

abbrev pub rdscur : ℕ
rdscur = 0x2B

abbrev pub wrscur : ℕ
wrscur = 0x2F

abbrev pub gblk : ℕ
gblk = 0x7E

abbrev pub gbulk : ℕ
gbulk = 0x98

abbrev pub wrlr : ℕ
wrlr = 0x2C

abbrev pub rdlr : ℕ
rdlr = 0x2D

abbrev pub wrpass : ℕ
wrpass = 0x28

abbrev pub rdpass : ℕ
rdpass = 0x27

abbrev pub passulk : ℕ
passulk = 0x29

abbrev pub wrspb : ℕ
wrspb = 0xE3

abbrev pub esspb : ℕ
esspb = 0xE4

abbrev pub rdspb : ℕ
rdspb = 0xE2

abbrev pub spblk : ℕ
spblk = 0xA6

abbrev pub rdspblk : ℕ
rdspblk = 0xA7

abbrev pub wrdpb : ℕ
wrdpb = 0xE1

abbrev pub rddpb : ℕ
rddpb = 0xE0

abbrev pub nop : ℕ
nop = 0x00

abbrev pub rsten : ℕ
rsten = 0x66

abbrev pub rst : ℕ
rst = 0x99
