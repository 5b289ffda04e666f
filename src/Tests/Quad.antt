-- ===== src/Tests/Quad.antt =====
-- Theorems on `QuadSpi` and `QuadTransfer` of src/bitbang.rs at concrete inputs.
use embassy_sandbox.Prelude.{
  ℕ, ◌+◌, ◌*◌, ◌%◌, ◌^◌, ◌≡◌, ◌≢◌, ◌↔◌, ◌⊎◌, refl, true, false, some, none, List, [], ◌∷◌, ◌++◌,
  map, panic,
}
use embassy_sandbox.Qspi.{AddressSize, QspiWidth, TransferConfig}
use embassy_sandbox.Bitbang.Wire.{Level, History}
use embassy_sandbox.Bitbang.Types.{Cpol, Cpha}
use embassy_sandbox.Bitbang.Config.{Mode, QuadTransfer, from_config}
use embassy_sandbox.Bitbang.Config.Laws.{from_config-panics_iff}
use embassy_sandbox.Bitbang.Quad.Bytes.{Pin, QuadSpi}
use embassy_sandbox.Bitbang.Quad.Transfers.{Direction, quad_transfer}
use embassy_sandbox.Bitbang.Quad.Peer.{QuadPeer, wired, nibbles}
use embassy_sandbox.Bitbang.Quad.Clocks.{edges, quad_transfer-clocks}
use embassy_sandbox.Bitbang.Quad.Sessions.{quad_transfer-reads}
use embassy_sandbox.Bitbang.Quad.Transfers.{
  single_transfer_in_place, single_transfer, single_transmit_,
}
use embassy_sandbox.Bitbang.Quad.Timing.{InTime, selected}
use embassy_sandbox.Bitbang.Quad.Timing.Session.{Used, made, Used-InTime}
use embassy_sandbox.Bitbang.Quad.Single.{
  single_transmit_-eq, single_transfer_in_place-eq, history_of, quad_of, outcome_of,
}
use embassy_sandbox.Bitbang.Spi
use embassy_sandbox.Bitbang.Spi.{transmit_all}
use embassy_sandbox.Flash.Simulated.{simulated}
use embassy_sandbox.Flash.Transfer

abbrev spi : QuadSpi
spi = record { min_sck_half_cycle = 1; cs_high_time = 1; cpol = Cpol._0; cpha = Cpha._0 }

-- 8 cycles for the instruction, 6 for the address, 2 dummy cycles.
abbrev phases : QuadTransfer
phases = record {
  instruction = some (0xEB, Mode.single);
  address = some (0x123456, Mode.quad, AddressSize._24bit);
  bytes = some Mode.quad;
  dummy_cycles = 2;
}

abbrev skipped : List ℕ
skipped = 0 ∷ 1 ∷ 2 ∷ 3 ∷ 4 ∷ 5 ∷ 6 ∷ 7 ∷ 8 ∷ 9 ∷ 10 ∷ 11 ∷ 12 ∷ 13 ∷ 14 ∷ 15 ∷ []

abbrev device : QuadPeer
device = record {
  active = false;
  line0 = false;
  line1 = false;
  line2 = false;
  line3 = false;
  taken = [];
  held = 0;
  queue = skipped ++ (nibbles (0xC5 ∷ 0x3A ∷ []) ++ []);
}

abbrev lines : Pin → History Pin → Level
lines = wired Cpha._0 device

quad_transfer-reads_example :
    (quad_transfer lines spi (Direction.read (0 ∷ 0 ∷ [])) phases []).0
    ≡ map (λ b. b % 2 ^ 8) (0xC5 ∷ 0x3A ∷ [])
quad_transfer-reads_example =
    quad_transfer-reads spi device (0 ∷ 0 ∷ []) (0xC5 ∷ 0x3A ∷ []) skipped [] phases 0 [] refl refl
      refl refl refl refl

quad_transfer-clocks_example :
    edges (quad_transfer lines spi (Direction.write (0xC5 ∷ [])) phases []).1 ≡ 0 + 2 * (16 + 2)
quad_transfer-clocks_example =
    quad_transfer-clocks lines spi (Direction.write (0xC5 ∷ [])) phases []

abbrev dual : TransferConfig (simulated.DummyCycles)
dual = Transfer.dread simulated 5 (simulated.dummy_8)

from_config-panics_iff_example : (from_config simulated dual AddressSize._24bit ≡ panic) ↔ (
    (dual.iwidth ≡ QspiWidth.dual)
    ⊎ (dual.dwidth ≡ QspiWidth.dual)
    ⊎ ((dual.address ≢ none) × (dual.awidth ≡ QspiWidth.dual)))
from_config-panics_iff_example = from_config-panics_iff simulated dual AddressSize._24bit

-- A session of two transfers.
abbrev session : QuadSpi × History Pin
session = made 1000000 5 Cpol._0 Cpha._1

abbrev high : Pin → History Pin → Level
high pin h = true

abbrev one_call : History Pin
one_call = (single_transfer high session.0 (0x9F ∷ []) (0 ∷ 0 ∷ []) session.1).1

abbrev two_calls : History Pin
two_calls = (quad_transfer high session.0 (Direction.read (0 ∷ [])) phases one_call).1

Used-InTime_example : InTime session.0 two_calls × (selected two_calls ≡ false)
Used-InTime_example = Used-InTime 1000000 5 Cpol._0 Cpha._1 high two_calls (
    Used.quad_transfers (Direction.read (0 ∷ [])) phases
      (Used.single_transfers (0x9F ∷ []) (0 ∷ 0 ∷ []) Used.fresh))

abbrev one_line : Spi.Spi
one_line = record { min_sck_half_cycle = 1; cs_high_time = 1; cpol = Cpol._0; cpha = Cpha._1 }

single_transmit_-eq_example :
    single_transmit_ high (quad_of one_line) (0xC5 ∷ []) (0 ∷ 0 ∷ []) (history_of [])
    ≡ outcome_of (transmit_all (λ pin h. true) one_line (0xC5 ∷ []) (0 ∷ 0 ∷ []) [])
single_transmit_-eq_example =
    single_transmit_-eq high (λ pin h. true) (λ h. refl) one_line (0xC5 ∷ []) (0 ∷ 0 ∷ []) []

single_transfer_in_place-eq_example :
    single_transfer_in_place high session.0 (0x9F ∷ 0 ∷ []) session.1
    ≡ single_transfer high session.0 (0x9F ∷ 0 ∷ []) (0x9F ∷ 0 ∷ []) session.1
single_transfer_in_place-eq_example =
    single_transfer_in_place-eq high session.0 (0x9F ∷ 0 ∷ []) session.1
