-- ===== src/Bitbang/Spi/Peer.antt =====
-- A device at the other end of the pins of `Spi` in src/bitbang.rs: a shift register of the same
-- clock phase, which listens while it is selected.
use embassy_sandbox.Prelude.{Bool, true, false, not, ◌≡◌, if◌then◌else◌, List, [], ◌∷◌, ◌++◌}
use embassy_sandbox.Bitbang.Wire.{Level, Event, History}
use embassy_sandbox.Bitbang.Types.{Cpha}
use embassy_sandbox.Bitbang.Spi.{Pin, ncs, sck, mosi}

pub record Peer : Type 0 where
  pub selected : Bool
  -- Whether the clock is off its idle level.
  pub active : Bool
  -- The level of the line from the master.
  pub line : Level
  -- With phase 0 the bit taken in at the first edge, with phase 1 the bit given out since then.
  pub held : Level
  -- The register, the bit that goes out next first.
  pub bits : List Bool

abbrev head_bit : List Bool → Bool
head_bit [] = false
head_bit (b ∷ bs) = b

abbrev tail_bits : List Bool → List Bool
tail_bits [] = []
tail_bits (b ∷ bs) = bs

abbrev pub edge : Cpha → Bool → Peer → Peer
edge Cpha._0 false p = record p { active = true; held = p.line }
edge Cpha._0 true p = record p { active = false; bits = tail_bits p.bits ++ (p.held ∷ []) }
edge Cpha._1 false p = record p { active = true; held = head_bit p.bits; bits = tail_bits p.bits }
edge Cpha._1 true p = record p { active = false; bits = p.bits ++ (p.line ∷ []) }

abbrev pub step : Cpha → Event Pin → Peer → Peer
step cpha (Event.toggle ncs) p = record p { selected = not p.selected }
step cpha (Event.toggle sck) p = if p.selected then edge cpha p.active p else p
step cpha (Event.set_level mosi level) p = record p { line = level }
step cpha _ p = p

-- The device after a history that began when it was `p`.
abbrev pub peer_after : Cpha → Peer → History Pin → Peer
peer_after cpha p [] = p
peer_after cpha p (e ∷ h) = step cpha e (peer_after cpha p h)

abbrev pub present : Cpha → Peer → Level
present Cpha._0 p = head_bit p.bits
present Cpha._1 p = p.held

-- The input of the master, wired to the device.
abbrev pub wired : Cpha → Peer → Pin → History Pin → Level
wired cpha p pin h = present cpha (peer_after cpha p h)

-- The device is selected, between two bits, with these bits in its register.
abbrev pub Waits : Peer → List Bool → Type 0
Waits p bits = (p.selected ≡ true) × (p.active ≡ false) × (p.bits ≡ bits)
