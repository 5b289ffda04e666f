-- ===== src/Bitbang/Quad/Listener/Program.antt =====
-- A page program of src/flash.rs sent by the bit-banging of src/bitbang.rs.
use embassy_sandbox.Prelude.{ℕ, ◌-◌, ◌*◌, ◌%◌, ◌^◌, ◌≡◌, none, some, refl, ◌∙◌, ap}
use embassy_sandbox.Prelude.{List, [], ◌∷◌, ◌++◌, length, Outcome, done, ◌>>=◌}
use embassy_sandbox.Bitbang.Wire.{Level, History}
use embassy_sandbox.Bitbang.Config.{
  Mode, QuadTransfer, from_config, from_width, address_phase, first_byte,
}
use embassy_sandbox.Qspi.{QspiWidth, AddressSize, Hal}
use embassy_sandbox.Bitbang.Quad.Bytes.{Pin, QuadSpi}
use embassy_sandbox.Bitbang.Quad.Transfers.{Direction}
use embassy_sandbox.Bitbang.Quad.Listener.{Listener, Layout, heard, decode, octets}
use embassy_sandbox.Bitbang.Quad.Listener.Frames.{
  Waiting, Call, Says, Tells, transfers, transfers-Tells,
}
use embassy_sandbox.Flash.Mode as Flash
use embassy_sandbox.Flash.Transfer

-- How a device reads the write enable and the page program.
abbrev pub enable_layout : ℕ → Layout
enable_layout dummy_cycles = record {
  instruction = some Mode.single;
  address = none;
  dummy_cycles = dummy_cycles;
  contents = none;
  length = 0;
}

abbrev pub program_layout : ℕ → AddressSize → ℕ → Layout
program_layout dummy_cycles size n = record {
  instruction = some Mode.single;
  address = some (Mode.single, size);
  dummy_cycles = dummy_cycles;
  contents = some Mode.single;
  length = n;
}

Tells-two :
    (d e : Direction) (t u : QuadTransfer) (frames : List (List ℕ))
    → Tells ((d, t) ∷ (e, u) ∷ []) frames
    → (f g : List ℕ) × (frames ≡ f ∷ g ∷ []) × Says d t f × Says e u g
Tells-two d e t u [] tells = absurd tells
Tells-two d e t u (f ∷ []) (says, tells) = absurd tells
Tells-two d e t u (f ∷ g ∷ []) (says, (said, tells)) = (f, g, refl, says, said)
Tells-two d e t u (f ∷ g ∷ x ∷ frames) (says, (said, tells)) = absurd tells

module _ (hal : Hal) (size : AddressSize) where
  -- The transfers of `program_page` before it waits, converted.
  unfoldable pub page_calls : List ℕ → ℕ → Outcome (List Call)
  page_calls section address = do
    enable ← from_config hal (Transfer.wren hal Flash.single) size
    page ← from_config hal (Transfer.pp hal Flash.single address) size
    done ((Direction.write [], enable) ∷ (Direction.write section, page) ∷ [])

  module _ (sense : Pin → History Pin → Level) (spi : QuadSpi) (p : Listener) where
    open spi use {cpha}

    -- If the HAL's default transfer has no address and no data, the write enable and the page program
    -- that the flash driver sends are converted by `from_config` without a panic; and a device of the
    -- same clock phase, not selected and with its clock idle, hears them bit-banged as two
    -- selections: the instruction 0x06 alone, and the instruction 0x02 with the address reduced to
    -- its size and, after the dummy cycles of the default transfer, the bytes of the page, with none
    -- over.
    pub page_calls-Heard :
        (section : List ℕ) (address : ℕ) (h : History Pin)
        → hal.default_config.address ≡ none
        → hal.default_config.dwidth ≡ QspiWidth.none
        → Waiting (heard cpha p h)
        → let dummy_cycles = hal.cycles hal.default_config.dummy in
          (calls : List Call) × (page_calls section address ≡ done calls)
          × (enable page : List ℕ) × ((heard cpha p (transfers sense spi calls h)).frames
              ≡ (heard cpha p h).frames ++ (enable ∷ page ∷ []))
          × (decode (enable_layout dummy_cycles) enable
              ≡ (record { instruction = some 0x06; address = none; contents = [] }, []))
          × (decode (program_layout dummy_cycles size (length section)) page ≡ (
            record {
              instruction = some 0x02;
              address = some (address % 2 ^ (8 * (4 - first_byte size)));
              contents = octets section;
            },
            [],
          ))
    unfolding page_calls from_config from_width address_phase Transfer.wren Transfer.pp
    page_calls-Heard section address h no_address no_contents w =
        let dummy_cycles = hal.cycles hal.default_config.dummy in
        let enable : QuadTransfer = record {
          instruction = some (0x06, Mode.single);
          address = none;
          bytes = none;
          dummy_cycles = dummy_cycles;
        } in
        let page : QuadTransfer = record {
          instruction = some (0x02, Mode.single);
          address = some (address, Mode.single, size);
          bytes = some Mode.single;
          dummy_cycles = dummy_cycles;
        } in
        let calls : List Call =
          (Direction.write [], enable) ∷ (Direction.write section, page) ∷ [] in
        let (waiting, frames, heard_all, tells) = transfers-Tells sense spi p calls h w in
        let (f, g, two, says_enable, says_page) =
          Tells-two (Direction.write []) (Direction.write section) enable page frames tells in
        (
          calls,
          rw (no_address, no_contents) refl,
          f,
          g,
          heard_all ∙ ap (λ fs. (heard cpha p h).frames ++ fs) two,
          says_enable,
          says_page,
        )
