-- ===== src/Tests/Listener.antt =====
-- Theorems on what a device hears of `QuadSpi` of src/bitbang.rs, at concrete inputs.
use embassy_sandbox.Prelude.{ℕ, ◌≡◌, refl, false, some, none}
use embassy_sandbox.Prelude.{List, [], ◌∷◌, ◌++◌, done}
use embassy_sandbox.Qspi.{AddressSize}
use embassy_sandbox.Bitbang.Wire.{Level, History}
use embassy_sandbox.Bitbang.Types.{Cpol, Cpha}
use embassy_sandbox.Bitbang.Config.{Mode, QuadTransfer}
use embassy_sandbox.Bitbang.Quad.Bytes.{Pin, QuadSpi}
use embassy_sandbox.Bitbang.Quad.Transfers.{Direction}
use embassy_sandbox.Bitbang.Quad.Listener.{Listener, heard, decode}
use embassy_sandbox.Bitbang.Quad.Listener.Frames.{Waiting, Call, Tells, transfers, transfers-Tells}
use embassy_sandbox.Bitbang.Quad.Listener.Program.{
  enable_layout, program_layout, page_calls, page_calls-Heard,
}
use embassy_sandbox.Flash.Simulated.{simulated}

abbrev spi : QuadSpi
spi = record { min_sck_half_cycle = 1; cs_high_time = 1; cpol = Cpol._0; cpha = Cpha._1 }

abbrev listener : Listener
listener = record {
  selected = false;
  active = false;
  line0 = false;
  line1 = false;
  line2 = false;
  line3 = false;
  current = [];
  frames = [];
}

abbrev low : Pin → History Pin → Level
low pin h = false

-- A quad write with dummy cycles, then a read.
abbrev phases : QuadTransfer
phases = record {
  instruction = some (0xEB, Mode.single);
  address = some (0x123456, Mode.quad, AddressSize._24bit);
  bytes = some Mode.quad;
  dummy_cycles = 2;
}

abbrev calls : List Call
calls = (Direction.write (0xC5 ∷ []), phases) ∷ (Direction.read (0 ∷ 0 ∷ []), phases) ∷ []

transfers-Tells_example :
    Waiting (heard Cpha._1 listener (transfers low spi calls []))
    × (frames : List (List ℕ)) × ((heard Cpha._1 listener (transfers low spi calls [])).frames
        ≡ [] ++ frames)
    × Tells calls frames
transfers-Tells_example = transfers-Tells low spi listener calls [] (refl, refl)

page_calls-Heard_example :
    (sent : List Call) × (page_calls simulated AddressSize._24bit (0xC5 ∷ []) 0x1234567 ≡ done sent)
    × (enable page : List ℕ) × ((heard Cpha._1 listener (transfers low spi sent [])).frames
        ≡ [] ++ (enable ∷ page ∷ []))
    × (decode (enable_layout 0) enable
        ≡ (record { instruction = some 0x06; address = none; contents = [] }, []))
    × (decode (program_layout 0 AddressSize._24bit 1) page
        ≡ (record { instruction = some 0x02; address = some 0x234567; contents = 0xC5 ∷ [] }, []))
page_calls-Heard_example =
    page_calls-Heard simulated AddressSize._24bit low spi listener (0xC5 ∷ []) 0x1234567 [] refl
      refl (refl, refl)
