-- ===== src/Bitbang/Quad/Listener/Frames.antt =====
-- Whole transfers of `QuadSpi` in src/bitbang.rs, as a device that heeds its chip select reads them.
use embassy_sandbox.Prelude.{ℕ, ◌≡◌, true, false, none}
use embassy_sandbox.Prelude.{List, [], ◌∷◌, ◌++◌, length, ◌∙◌, ap, ap₂, sym, arith}
use mathlib.Core.List.{append-nil, append_assoc}
use embassy_sandbox.Bitbang.Wire.{Level, Event, History, M, ◌>>=◌, ◌>>◌, emit, when}
use embassy_sandbox.Bitbang.Types.{is_0, is_1}
use embassy_sandbox.Bitbang.Config.{QuadTransfer}
use embassy_sandbox.Bitbang.Quad.Bytes.{Pin, QuadSpi, ncs, single_mode}
use embassy_sandbox.Bitbang.Quad.Transfers.{
  Direction, framed, quad_transfer, instruction_phase, address_phase, dummy_phase, data_phase,
}
use embassy_sandbox.Bitbang.Quad.Listener.{Listener, heard, decode, layout, command}
use embassy_sandbox.Bitbang.Quad.Listener.Takes.{Ready, Reads, Takes, takes_as, takes_both}
use embassy_sandbox.Bitbang.Quad.Listener.Reading.{data_cycles, data_phase-Long}
use embassy_sandbox.Bitbang.Quad.Listener.Phases.{phases, phases-Takes}

-- A device that is not in a selection, with its clock idle.
abbrev pub Waiting : Listener → Type 0
Waiting q = (q.selected ≡ false) × (q.active ≡ false)

-- The transfer without its data.
abbrev pub heading : QuadTransfer → QuadTransfer
heading t = record t { bytes = none }

-- How a device reads the nibbles of a selection: those of a write as its command, with none over; of
-- a read first the instruction and the address, and then a nibble for each clock cycle of the data.
abbrev pub Says : Direction → QuadTransfer → List ℕ → Type 0
Says (Direction.write tx) t frame = decode (layout t (length tx)) frame ≡ (command t tx, [])
Says (Direction.read rx) t frame =
    (rest : List ℕ) × (decode (layout (heading t) 0) frame ≡ (command (heading t) [], rest))
    × (length rest ≡ data_cycles t.bytes (length rx))

-- A call of `quad_read` or `quad_write`.
abbrev pub Call : Type 0
Call = Direction × QuadTransfer

-- Selections that say calls, in order.
abbrev pub Tells : List Call → List (List ℕ) → Type 0
Tells [] [] = Unit {0}
Tells ((direction, t) ∷ calls) (frame ∷ frames) = Says direction t frame × Tells calls frames
Tells _ _ = ⊥

module _ (sense : Pin → History Pin → Level) (spi : QuadSpi) where
  -- The calls one after the other.
  unfoldable pub transfers : List Call → History Pin → History Pin
  transfers [] h = h
  transfers ((direction, t) ∷ calls) h = transfers calls (quad_transfer sense spi direction t h).1

module _ (sense : Pin → History Pin → Level) (spi : QuadSpi) (p : Listener) where
  open spi use {min_sck_half_cycle, cs_high_time, cpha}

  -- What `quad_transfer` does between selecting the device and releasing it.
  abbrev body : Direction → QuadTransfer → M Pin (List ℕ)
  body direction t = do
    sent ← instruction_phase sense spi t.instruction
    addressed ← address_phase sense spi t.address
    dummy_phase sense spi t.dummy_cycles
    data_phase sense spi direction t.bytes

  -- The history when the device has been selected.
  abbrev opened : History Pin → History Pin
  opened h =
      (when (is_1 cpha) (emit (Event.block_for min_sck_half_cycle))
        (Event.set_level ncs false ∷ (single_mode h).1)).1

  opened-Ready :
      (h : History Pin)
      → Waiting (heard cpha p h)
      → Ready (heard cpha p (opened h))
        × ((heard cpha p (opened h)).current ≡ [])
        × ((heard cpha p (opened h)).frames ≡ (heard cpha p h).frames)
  unfolding single_mode
  opened-Ready h w = ground arith

  -- The history when it is released.
  abbrev closed : History Pin → History Pin
  closed h =
      Event.block_for cs_high_time
      ∷ Event.set_level ncs true
      ∷ (when (is_0 cpha) (emit (Event.block_for min_sck_half_cycle)) h).1

  closed-Waiting :
      (h : History Pin)
      → Ready (heard cpha p h)
      → Waiting (heard cpha p (closed h))
        × ((heard cpha p (closed h)).frames
            ≡ (heard cpha p h).frames ++ ((heard cpha p h).current ∷ []))
  closed-Waiting h w = ground arith

  framed-Waiting :
      {P : List ℕ → Type 0} (body : M Pin (List ℕ)) (h : History Pin)
      → Takes sense spi p body P
      → Waiting (heard cpha p h)
      → Waiting (heard cpha p (framed sense spi body h).1)
        × (frame : List ℕ) × ((heard cpha p (framed sense spi body h).1).frames
            ≡ (heard cpha p h).frames ++ (frame ∷ []))
        × P frame
  unfolding framed
  framed-Waiting body h takes w =
      let (ready, current, frames) = opened-Ready h w in
      let (ready', frames', new, current', holds) = takes (opened h) ready in
      let (waiting, ended) = closed-Waiting (body (opened h)).1 ready' in
      let frame = current' ∙ ap (λ ns. ns ++ new) current in
      (waiting, new, ended ∙ ap₂ (λ fs f. fs ++ (f ∷ [])) (frames' ∙ frames) frame, holds)

  Says-read :
      (rx : List ℕ) (t : QuadTransfer) (a b : List ℕ)
      → Reads (decode (layout (heading t) 0)) (command (heading t) []) a
      → length b ≡ data_cycles t.bytes (length rx)
      → Says (Direction.read rx) t (a ++ b)
  Says-read rx t a b reads long = (b, reads b, long)

  body-Takes :
      (direction : Direction) (t : QuadTransfer)
      → Takes sense spi p (body direction t) (Says direction t)
  unfolding data_phase
  body-Takes (Direction.write tx) t =
      takes_as sense spi p (phases sense spi p tx t)
        (λ frame reads. ap (decode (layout t (length tx))) (sym (append-nil frame)) ∙ reads [])
        (phases-Takes sense spi p tx t)
  body-Takes (Direction.read rx) t =
      takes_both sense spi p (phases sense spi p [] (heading t))
        (λ x. data_phase sense spi (Direction.read rx) t.bytes) (Says-read rx t)
        (phases-Takes sense spi p [] (heading t)) (λ x. data_phase-Long sense spi p rx t.bytes)

  quad_transfer-Says :
      (direction : Direction) (t : QuadTransfer) (h : History Pin)
      → Waiting (heard cpha p h)
      → Waiting (heard cpha p (quad_transfer sense spi direction t h).1)
        × (frame : List ℕ) × ((heard cpha p (quad_transfer sense spi direction t h).1).frames
            ≡ (heard cpha p h).frames ++ (frame ∷ []))
        × Says direction t frame
  unfolding quad_transfer
  quad_transfer-Says direction t h w =
      framed-Waiting (body direction t) h (body-Takes direction t) w

  -- A device of the same clock phase that is not selected and whose clock is idle hears each call of
  -- `quad_read` or `quad_write` as one selection, in order, whatever the inputs read, and is then as
  -- before. It reads a write back, with none over, as the instruction reduced to a byte, the address
  -- reduced to its size, and after the dummy cycles the bytes, if there is a data phase; and a read
  -- as its instruction and address, and after the dummy cycles a nibble for each clock cycle of its
  -- data.
  pub transfers-Tells :
      (calls : List Call) (h : History Pin)
      → Waiting (heard cpha p h)
      → Waiting (heard cpha p (transfers sense spi calls h))
        × (frames : List (List ℕ)) × ((heard cpha p (transfers sense spi calls h)).frames
            ≡ (heard cpha p h).frames ++ frames)
        × Tells calls frames
  unfolding transfers
  transfers-Tells [] h w = (w, [], sym (append-nil (heard cpha p h).frames), tt)
  transfers-Tells ((direction, t) ∷ calls) h w =
      let (waiting, frame, frames, says) = quad_transfer-Says direction t h w in
      let (waiting', others, more, tells) = transfers-Tells calls _ waiting in
      (
        waiting',
        frame ∷ others,
        more
            ∙ ap (λ fs. fs ++ others) frames
            ∙ append_assoc (heard cpha p h).frames (frame ∷ []) others,
        (says, tells),
      )
