-- ===== src/Bitbang/Quad/Timing/Session.antt =====
-- Every use of a `QuadSpi` of src/bitbang.rs, from its making on.
use embassy_sandbox.Prelude.{ℕ, ◌≡◌, false, arith, List, []}
use embassy_sandbox.Bitbang.Wire.{Level, History}
use embassy_sandbox.Bitbang.Types.{Cpol, Cpha}
use embassy_sandbox.Bitbang.Config.{QuadTransfer}
use embassy_sandbox.Bitbang.Quad.Bytes.{Pin, QuadSpi, new}
use embassy_sandbox.Bitbang.Quad.Transfers.{
  Direction, single_transfer, single_transfer_in_place, quad_transfer,
}
use embassy_sandbox.Bitbang.Quad.Transfers.{single_read, single_write, quad_read, quad_write}
use embassy_sandbox.Bitbang.Quad.Timing.{
  Rests, InTime, selected, framed-Rests, bind-Keeps, then-Keeps,
}
use embassy_sandbox.Bitbang.Quad.Timing.Phases.{
  single_transmit_-Keeps, in_place_-Keeps, instruction_phase-Keeps, address_phase-Keeps,
  dummy_phase-Keeps, data_phase-Keeps,
}

module _ (spi : QuadSpi) (sense : Pin → History Pin → Level) where
  single-Rests :
      (tx rx : List ℕ) (h : History Pin)
      → Rests spi h
      → Rests spi (single_transfer sense spi tx rx h).1
  unfolding single_transfer
  single-Rests tx rx h r = framed-Rests spi sense _ (single_transmit_-Keeps spi sense tx rx) h r

  in_place-Rests :
      (trx : List ℕ) (h : History Pin)
      → Rests spi h
      → Rests spi (single_transfer_in_place sense spi trx h).1
  unfolding single_transfer_in_place
  in_place-Rests trx h r = framed-Rests spi sense _ (in_place_-Keeps spi sense trx) h r

  quad-Rests :
      (direction : Direction) (t : QuadTransfer) (h : History Pin)
      → Rests spi h
      → Rests spi (quad_transfer sense spi direction t h).1
  unfolding quad_transfer
  quad-Rests direction t h r =
      framed-Rests spi sense _
        (bind-Keeps spi sense _ _ (instruction_phase-Keeps spi sense t.instruction) (λ sent.
          bind-Keeps spi sense _ _ (address_phase-Keeps spi sense t.address) (λ addressed.
            then-Keeps spi sense _ _ (dummy_phase-Keeps spi sense t.dummy_cycles)
              (data_phase-Keeps spi sense direction t.bytes))))
        h r

  -- The histories that calls of the public methods can lead to, whatever the inputs read.
  pub data Used (start : History Pin) : History Pin → Type 0 where
    fresh : Used start start
    single_transfers :
        {h : History Pin} (tx rx : List ℕ)
        → Used start h
        → Used start (single_transfer sense spi tx rx h).1
    single_reads :
        {h : History Pin} (rx : List ℕ) → Used start h → Used start (single_read sense spi rx h).1
    single_writes :
        {h : History Pin} (tx : List ℕ) → Used start h → Used start (single_write sense spi tx h).1
    in_place_transfers :
        {h : History Pin} (trx : List ℕ)
        → Used start h
        → Used start (single_transfer_in_place sense spi trx h).1
    quad_transfers :
        {h : History Pin} (direction : Direction) (t : QuadTransfer)
        → Used start h
        → Used start (quad_transfer sense spi direction t h).1
    quad_reads :
        {h : History Pin} (rx : List ℕ) (t : QuadTransfer)
        → Used start h
        → Used start (quad_read sense spi rx t h).1
    quad_writes :
        {h : History Pin} (tx : List ℕ) (t : QuadTransfer)
        → Used start h
        → Used start (quad_write sense spi tx t h).1

  Used-Rests : {start h : History Pin} → Used start h → Rests spi start → Rests spi h
  unfolding single_read single_write quad_read quad_write
  Used-Rests fresh r = r
  Used-Rests (single_transfers tx rx u) r = single-Rests tx rx _ (Used-Rests u r)
  Used-Rests (single_reads rx u) r = single-Rests [] rx _ (Used-Rests u r)
  Used-Rests (single_writes tx u) r = single-Rests tx [] _ (Used-Rests u r)
  Used-Rests (in_place_transfers trx u) r = in_place-Rests trx _ (Used-Rests u r)
  Used-Rests (quad_transfers direction t u) r = quad-Rests direction t _ (Used-Rests u r)
  Used-Rests (quad_reads rx t u) r = quad-Rests (Direction.read rx) t _ (Used-Rests u r)
  Used-Rests (quad_writes tx t u) r = quad-Rests (Direction.write tx) t _ (Used-Rests u r)

abbrev pub made : ℕ → ℕ → Cpol → Cpha → QuadSpi × History Pin
made half high cpol cpha = new half high cpol cpha []

new-Rests :
    (max_sck_freq cs_high_time : ℕ) (cpol : Cpol) (cpha : Cpha)
    → Rests
        (made max_sck_freq cs_high_time cpol cpha).0
        (made max_sck_freq cs_high_time cpol cpha).1
unfolding new
new-Rests max_sck_freq cs_high_time cpol cpha = ground arith

-- After `new` and any calls of the public methods, whatever the inputs read: each clock edge came at
-- least half a cycle after the one before it and while the chip was selected, each selection but the
-- first came at least `cs_high_time` after the chip was deselected, and the chip is not selected.
pub Used-InTime :
    (max_sck_freq cs_high_time : ℕ) (cpol : Cpol) (cpha : Cpha) (sense : Pin → History Pin → Level)
    (h : History Pin)
    → Used
        (made max_sck_freq cs_high_time cpol cpha).0
        sense
        (made max_sck_freq cs_high_time cpol cpha).1
        h
    → InTime (made max_sck_freq cs_high_time cpol cpha).0 h × (selected h ≡ false)
Used-InTime max_sck_freq cs_high_time cpol cpha sense h u =
    let (spi, start) = made max_sck_freq cs_high_time cpol cpha in
    let rests = Used-Rests spi sense u (new-Rests max_sck_freq cs_high_time cpol cpha) in
    (rests.2, rests.0)
