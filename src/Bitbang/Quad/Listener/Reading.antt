-- ===== src/Bitbang/Quad/Listener/Reading.antt =====
-- What a selected device takes in while `QuadSpi` of src/bitbang.rs fills a buffer: a nibble for each
-- clock cycle, whatever stands on the lines then.
use embassy_sandbox.Prelude.{ℕ, zero, suc, ◌+◌, ◌*◌, ◌≡◌, Option, none, some}
use embassy_sandbox.Prelude.{List, [], ◌∷◌, ◌++◌, length, refl, ap, ◌∙◌, arith, length-append}
use embassy_sandbox.Bitbang.Wire.{Level, History}
use embassy_sandbox.Bitbang.Bits.{place}
use embassy_sandbox.Bitbang.Config.{Mode}
use embassy_sandbox.Bitbang.Quad.Bytes.{
  Pin, QuadSpi, single_mode, quad_read_mode, single_bit, single_bits, single_transmit_byte_,
  read_half, quad_read_byte_,
}
use embassy_sandbox.Bitbang.Quad.Transfers.{
  Direction, single_transmit_, single_read_, quad_read_, transfer_, data_phase,
}
use embassy_sandbox.Bitbang.Quad.Listener.{Listener, heard}
use embassy_sandbox.Bitbang.Quad.Listener.Takes.{
  One, Takes, Adds-One, takes_both, takes_nothing, single_bit-Takes,
}

-- The clock cycles of a byte, and of the data of a transfer.
abbrev pub byte_cycles : Mode → ℕ
byte_cycles Mode.single = 8
byte_cycles Mode.quad = 2

abbrev pub data_cycles : Option Mode → ℕ → ℕ
data_cycles none n = 0
data_cycles (some mode) n = n * byte_cycles mode

abbrev Long : ℕ → List ℕ → Type 0
Long n new = length new ≡ n

One-Long : {P : ℕ → Type 0} (new : List ℕ) → One P new → Long 1 new
One-Long new (v, e, holds) = ap length e

both-Long : (m n : ℕ) (a b : List ℕ) → Long m a → Long n b → Long (m + n) (a ++ b)
both-Long m n a b long_a long_b = omega (arith, length-append a)

module _ (sense : Pin → History Pin → Level) (spi : QuadSpi) (p : Listener) where
  open spi use {cpha}

  read_half-Takes : (half rx : ℕ) → Takes sense spi p (read_half sense spi half rx) (Long 1)
  unfolding read_half
  read_half-Takes half rx h w =
      let q = heard cpha p h in
      let v = place q.line0 0 + place q.line1 1 + place q.line2 2 + place q.line3 3 in
      let (ready, frames, new, current, one) =
        Adds-One {P = λ v'. Unit {0}} v q (heard cpha p (read_half sense spi half rx h).1) tt
          (ground arith) in
      (ready, frames, new, current, One-Long new one)

  quad_read_byte_-Takes : Takes sense spi p (quad_read_byte_ sense spi) (Long 2)
  unfolding quad_read_byte_
  quad_read_byte_-Takes =
      takes_both sense spi p (read_half sense spi 1 0) (read_half sense spi 0) (both-Long 1 1)
        (read_half-Takes 1 0) (read_half-Takes 0)

  single_bits-Takes : (n tx rx : ℕ) → Takes sense spi p (single_bits sense spi n tx rx) (Long n)
  unfolding single_bits
  single_bits-Takes zero tx rx = takes_nothing sense spi p rx refl
  single_bits-Takes (suc n) tx rx =
      takes_both sense spi p (single_bit sense spi tx n rx) (single_bits sense spi n tx)
        (λ a b one long. both-Long 1 n a b (One-Long a one) long ∙ omega arith)
        (single_bit-Takes sense spi p tx n rx) (single_bits-Takes n tx)

  single_read_-Takes :
      (rx : List ℕ) → Takes sense spi p (single_transmit_ sense spi [] rx) (Long (length rx * 8))
  unfolding single_transmit_ single_transmit_byte_
  single_read_-Takes [] = takes_nothing sense spi p {A = List ℕ} [] refl
  single_read_-Takes (r ∷ rx) =
      takes_both sense spi p (single_transmit_byte_ sense spi 0)
        (λ x h.
          (x ∷ (single_transmit_ sense spi [] rx h).0, (single_transmit_ sense spi [] rx h).1))
        (λ a b m n. both-Long 8 (length rx * 8) a b m n ∙ omega arith) (single_bits-Takes 8 0 0)
        (λ x. single_read_-Takes rx)

  quad_read_-Takes :
      (rx : List ℕ) → Takes sense spi p (quad_read_ sense spi rx) (Long (length rx * 2))
  unfolding quad_read_
  quad_read_-Takes [] = takes_nothing sense spi p {A = List ℕ} [] refl
  quad_read_-Takes (r ∷ rx) =
      takes_both sense spi p (quad_read_byte_ sense spi)
        (λ x h. (x ∷ (quad_read_ sense spi rx h).0, (quad_read_ sense spi rx h).1))
        (λ a b m n. both-Long 2 (length rx * 2) a b m n ∙ omega arith) quad_read_byte_-Takes
        (λ x. quad_read_-Takes rx)

  -- Reading takes in as many nibbles as its data have clock cycles.
  pub data_phase-Long :
      (rx : List ℕ) (mode : Option Mode)
      → Takes sense spi p
          (data_phase sense spi (Direction.read rx) mode)
          (Long (data_cycles mode (length rx)))
  unfolding data_phase transfer_ single_read_ single_mode quad_read_mode
  data_phase-Long rx none h w = takes_nothing sense spi p rx refl h w
  data_phase-Long rx (some Mode.single) h w = single_read_-Takes rx (single_mode h).1 w
  data_phase-Long rx (some Mode.quad) h w = quad_read_-Takes rx (quad_read_mode h).1 w
