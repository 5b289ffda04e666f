-- ===== src/Bitbang/Quad/Peer.antt =====
-- A device at the other end of the four data lines of `QuadSpi` in src/bitbang.rs, with the same
-- clock phase. It takes in a nibble at one edge of each clock cycle and gives one out in each cycle.
use embassy_sandbox.Prelude.{ℕ, Bool, true, false, ◌+◌, ◌/◌, ◌%◌, ◌≡◌, List, [], ◌∷◌, ◌++◌}
use embassy_sandbox.Bitbang.Wire.{Level, Event, History}
use embassy_sandbox.Bitbang.Types.{Cpha}
use embassy_sandbox.Bitbang.Bits.{bit_at, place}
use embassy_sandbox.Bitbang.Quad.Bytes.{Pin, sck, d0_mosi, d1_miso, d2_nwp, d3_nhold}

pub record QuadPeer : Type 0 where
  -- Whether the clock is off its idle level.
  pub active : Bool
  -- The levels of the lines from the master.
  pub line0 : Level
  pub line1 : Level
  pub line2 : Level
  pub line3 : Level
  -- The nibbles taken in, the first one first.
  pub taken : List ℕ
  -- The nibble that has been given out since the last edge into phase 1.
  pub held : ℕ
  -- The nibbles to give out.
  pub queue : List ℕ

abbrev pub head_nibble : List ℕ → ℕ
head_nibble [] = 0
head_nibble (n ∷ ns) = n

abbrev pub tail_nibbles : List ℕ → List ℕ
tail_nibbles [] = []
tail_nibbles (n ∷ ns) = ns

-- The nibble on the lines.
abbrev pub line_value : QuadPeer → ℕ
line_value p = place p.line0 0 + place p.line1 1 + place p.line2 2 + place p.line3 3

abbrev pub edge : Cpha → Bool → QuadPeer → QuadPeer
edge Cpha._0 false p = record p { active = true; taken = p.taken ++ (line_value p ∷ []) }
edge Cpha._0 true p = record p { active = false; queue = tail_nibbles p.queue }
edge Cpha._1 false p = record p {
  active = true;
  held = head_nibble p.queue;
  queue = tail_nibbles p.queue;
}
edge Cpha._1 true p = record p { active = false; taken = p.taken ++ (line_value p ∷ []) }

abbrev pub step : Cpha → Event Pin → QuadPeer → QuadPeer
step cpha (Event.toggle sck) p = edge cpha p.active p
step cpha (Event.set_level d0_mosi level) p = record p { line0 = level }
step cpha (Event.set_level d1_miso level) p = record p { line1 = level }
step cpha (Event.set_level d2_nwp level) p = record p { line2 = level }
step cpha (Event.set_level d3_nhold level) p = record p { line3 = level }
step cpha _ p = p

-- The device after a history that began when it was `p`.
abbrev pub peer_after : Cpha → QuadPeer → History Pin → QuadPeer
peer_after cpha p [] = p
peer_after cpha p (e ∷ h) = step cpha e (peer_after cpha p h)

abbrev pub present : Cpha → QuadPeer → ℕ
present Cpha._0 p = head_nibble p.queue
present Cpha._1 p = p.held

-- The inputs of the master, wired to the device: a line carries a bit of the nibble.
abbrev pub bit_of : Pin → ℕ → Level
bit_of d0_mosi n = bit_at n 0
bit_of d1_miso n = bit_at n 1
bit_of d2_nwp n = bit_at n 2
bit_of d3_nhold n = bit_at n 3
bit_of _ n = false

abbrev pub wired : Cpha → QuadPeer → Pin → History Pin → Level
wired cpha p pin h = bit_of pin (present cpha (peer_after cpha p h))

-- The device is between two cycles, has taken in `taken` and has `queue` to give out.
abbrev pub Waits : QuadPeer → List ℕ → List ℕ → Type 0
Waits p taken queue = (p.active ≡ false) × (p.taken ≡ taken) × (p.queue ≡ queue)

-- The nibbles of bytes, the high one of each first.
abbrev pub nibbles : List ℕ → List ℕ
nibbles [] = []
nibbles (b ∷ bs) = b / 16 % 16 ∷ b % 16 ∷ nibbles bs
