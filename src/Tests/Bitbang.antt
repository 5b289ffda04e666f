-- ===== src/Tests/Bitbang.antt =====
-- Runs of the model of src/bitbang.rs against a shift register, and its theorems at concrete inputs.
use embassy_sandbox.Prelude.{◌≡◌, refl, true, false, Bool, List, [], ◌∷◌}
use embassy_sandbox.Bitbang.Types.{Cpol, Cpha}
use embassy_sandbox.Bitbang.Bits.{from_bits}
use embassy_sandbox.Bitbang.Spi.{Spi, transmit}
use embassy_sandbox.Bitbang.Spi.Peer.{Peer, peer_after, wired}
use embassy_sandbox.Bitbang.Spi.Message.{delayed, transmit-exchange}

abbrev spi : Spi
spi = record { min_sck_half_cycle = 1; cs_high_time = 1; cpol = Cpol._0; cpha = Cpha._0 }

abbrev bits : List Bool
bits = true ∷ false ∷ true ∷ false ∷ false ∷ false ∷ false ∷ true ∷ []

abbrev device : Bool → Peer
device selected = record {
  selected = selected;
  active = false;
  line = false;
  held = false;
  bits = bits;
}

transmit-exchange_example :
    let (buffer, h) =
      transmit (wired Cpha._0 (device false)) spi (1 ∷ 2 ∷ []) (0 ∷ 0 ∷ 0 ∷ []) [] in
    (buffer ≡ delayed (from_bits bits) 3 (1 ∷ 2 ∷ []))
    × ((peer_after Cpha._0 (device false) h).selected ≡ false)
    × ((peer_after Cpha._0 (device false) h).active ≡ false)
transmit-exchange_example =
    transmit-exchange spi (device false) (1 ∷ 2 ∷ []) (0 ∷ 0 ∷ 0 ∷ []) bits [] refl refl refl refl
