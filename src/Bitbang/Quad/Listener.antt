-- ===== src/Bitbang/Quad/Listener.antt =====
-- A device on the four data lines of `QuadSpi` in src/bitbang.rs that heeds its chip select: it keeps
-- what it takes in from one selection to its end, and reads a command in that.
pub mod Takes
pub mod Phases
pub mod Reading
pub mod Frames
pub mod Program
use embassy_sandbox.Prelude.{
  ℕ, zero, suc, ◌+◌, ◌-◌, ◌*◌, ◌%◌, ◌^◌, Bool, true, false, not, Option, none, some,
}
use embassy_sandbox.Prelude.{List, [], ◌∷◌, ◌++◌, drop, map}
use embassy_sandbox.Bitbang.Wire.{Level, Event, History}
use embassy_sandbox.Bitbang.Types.{Cpha}
use embassy_sandbox.Bitbang.Bits.{place}
use embassy_sandbox.Bitbang.Config.{Mode, QuadTransfer, first_byte}
use embassy_sandbox.Bitbang.Config.Laws.{be_value}
use embassy_sandbox.Qspi.{AddressSize}
use embassy_sandbox.Bitbang.Quad.Bytes.{Pin, ncs, sck, d0_mosi, d1_miso, d2_nwp, d3_nhold}

pub record Listener : Type 0 where
  pub selected : Bool
  -- Whether the clock is off its idle level.
  pub active : Bool
  -- The levels of the lines from the master.
  pub line0 : Level
  pub line1 : Level
  pub line2 : Level
  pub line3 : Level
  -- The nibbles since the latest selection, and those of the selections before it.
  pub current : List ℕ
  pub frames : List (List ℕ)

abbrev pub line_value : Listener → ℕ
line_value p = place p.line0 0 + place p.line1 1 + place p.line2 2 + place p.line3 3

abbrev pub take_in : Listener → Listener
take_in p = record p { active = not p.active; current = p.current ++ (line_value p ∷ []) }

-- A device that is not selected does not look at the lines.
abbrev pub edge : Cpha → Bool → Bool → Listener → Listener
edge Cpha._0 true false p = take_in p
edge Cpha._1 true true p = take_in p
edge _ _ _ p = record p { active = not p.active }

abbrev pub select : Bool → Level → Listener → Listener
select now false p = record p { selected = true; current = [] }
select true true p = record p { selected = false; frames = p.frames ++ (p.current ∷ []) }
select false true p = p

abbrev pub step : Cpha → Event Pin → Listener → Listener
step cpha (Event.toggle sck) p = edge cpha p.selected p.active p
step cpha (Event.set_level ncs level) p = select p.selected level p
step cpha (Event.set_level d0_mosi level) p = record p { line0 = level }
step cpha (Event.set_level d1_miso level) p = record p { line1 = level }
step cpha (Event.set_level d2_nwp level) p = record p { line2 = level }
step cpha (Event.set_level d3_nhold level) p = record p { line3 = level }
step cpha _ p = p

-- The device after a history that began when it was `p`.
abbrev pub heard : Cpha → Listener → History Pin → Listener
heard cpha p [] = p
heard cpha p (e ∷ h) = step cpha e (heard cpha p h)

-- What reads something from the front of the nibbles.
abbrev pub Reader : Type 0 → Type 0
Reader X = List ℕ → X × List ℕ

-- So many bits from the first line, the highest first.
unfoldable pub bits : ℕ → ℕ → Reader ℕ
bits zero acc ns = (acc, ns)
bits (suc n) acc [] = (acc, [])
bits (suc n) acc (v ∷ ns) = bits n (acc * 2 + v % 2) ns

unfoldable pub two_nibbles : Reader ℕ
two_nibbles (a ∷ b ∷ ns) = (a * 16 + b, ns)
two_nibbles _ = (0, [])

unfoldable pub byte : Mode → Reader ℕ
byte Mode.single ns = bits 8 0 ns
byte Mode.quad ns = two_nibbles ns

unfoldable pub bytes : Mode → ℕ → Reader (List ℕ)
bytes mode zero ns = ([], ns)
bytes mode (suc n) ns =
    let (b, ns') = byte mode ns in let (bs, rest) = bytes mode n ns' in (b ∷ bs, rest)

-- What a device has to know of a transfer to read it: the modes and lengths of its phases.
pub record Layout : Type 0 where
  pub instruction : Option Mode
  pub address : Option (Mode × AddressSize)
  pub dummy_cycles : ℕ
  pub contents : Option Mode
  pub length : ℕ

pub record Command : Type 0 where
  pub instruction : Option ℕ
  pub address : Option ℕ
  pub contents : List ℕ

unfoldable pub read_instruction : Option Mode → Reader (Option ℕ)
read_instruction none ns = (none, ns)
read_instruction (some mode) ns = let (b, rest) = byte mode ns in (some b, rest)

unfoldable pub read_address : Option (Mode × AddressSize) → Reader (Option ℕ)
read_address none ns = (none, ns)
read_address (some (mode, size)) ns =
    let (bs, rest) = bytes mode (4 - first_byte size) ns in (some (be_value 0 bs), rest)

unfoldable pub read_contents : Option Mode → ℕ → Reader (List ℕ)
read_contents none n ns = ([], ns)
read_contents (some mode) n ns = bytes mode n ns

unfoldable pub decode : Layout → Reader Command
decode layout ns =
    let (i, after_i) = read_instruction layout.instruction ns in
    let (a, after_a) = read_address layout.address after_i in
    let (d, rest) =
      read_contents layout.contents layout.length (drop layout.dummy_cycles after_a) in
    (record { instruction = i; address = a; contents = d }, rest)

abbrev pub instruction_mode : Option (ℕ × Mode) → Option Mode
instruction_mode none = none
instruction_mode (some (instruction, mode)) = some mode

abbrev pub address_layout : Option (ℕ × Mode × AddressSize) → Option (Mode × AddressSize)
address_layout none = none
address_layout (some (address, mode, size)) = some (mode, size)

-- What a device has to know to read a write of so many bytes.
abbrev pub layout : QuadTransfer → ℕ → Layout
layout t n = record {
  instruction = instruction_mode t.instruction;
  address = address_layout t.address;
  dummy_cycles = t.dummy_cycles;
  contents = t.bytes;
  length = n;
}

-- The bytes of a list, as a `u8` holds them.
abbrev pub octets : List ℕ → List ℕ
octets bs = map (λ b. b % 2 ^ 8) bs

abbrev pub instruction_sent : Option (ℕ × Mode) → Option ℕ
instruction_sent none = none
instruction_sent (some (instruction, mode)) = some (instruction % 2 ^ 8)

-- The address, reduced to its size.
abbrev pub address_sent : Option (ℕ × Mode × AddressSize) → Option ℕ
address_sent none = none
address_sent (some (address, mode, size)) = some (address % 2 ^ (8 * (4 - first_byte size)))

abbrev pub contents_sent : Option Mode → List ℕ → List ℕ
contents_sent none tx = []
contents_sent (some mode) tx = octets tx

-- What a write of `tx` means.
abbrev pub command : QuadTransfer → List ℕ → Command
command t tx = record {
  instruction = instruction_sent t.instruction;
  address = address_sent t.address;
  contents = contents_sent t.bytes tx;
}
