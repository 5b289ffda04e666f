-- ===== src/Bitbang/Spi/Exchange.antt =====
-- What `Spi` of src/bitbang.rs and a shift register exchange.
use embassy_sandbox.Prelude.{ℕ, zero, suc, ◌+◌, ◌*◌, ◌^◌, ◌≡◌, refl, ◌∙◌, ap, arith}
use embassy_sandbox.Prelude.{Bool, List, [], ◌∷◌, ◌++◌, length, bit_or}
use embassy_sandbox.Bitbang.Wire.{Level, History}
use mathlib.Core.List.{append-nil, append_assoc}
use embassy_sandbox.Prelude.{sym}
use embassy_sandbox.Bitbang.Bits.{bit_or-place, bit_at, place, to_bits, from_bits}
use embassy_sandbox.Bitbang.Spi.{Pin, Spi, transmit_bit, transmit_bits, transmit_byte}
use embassy_sandbox.Bitbang.Spi.Peer.{Peer, peer_after, wired, Waits}

module _ (spi : Spi) (p : Peer) where
  open spi use {cpha}

  abbrev sense : Pin → History Pin → Level
  sense = wired cpha p

  abbrev peer : History Pin → Peer
  peer h = peer_after cpha p h

  transmit_bit-exchange :
      (tx pos rx : ℕ) (b : Bool) (bs : List Bool) (h : History Pin)
      → Waits (peer h) (b ∷ bs)
      → ((transmit_bit sense spi tx pos rx h).0 ≡ bit_or rx (place b pos))
        × Waits (peer (transmit_bit sense spi tx pos rx h).1) (bs ++ (bit_at tx pos ∷ []))
  unfolding transmit_bit
  transmit_bit-exchange tx pos rx b bs h w = ground arith

  transmit_bits-suc :
      (n tx rx : ℕ) (h : History Pin)
      → transmit_bits sense spi (suc n) tx rx h
        ≡ transmit_bits sense spi n tx
            (transmit_bit sense spi tx n rx h).0
            (transmit_bit sense spi tx n rx h).1
  unfolding transmit_bits
  transmit_bits-suc n tx rx h = refl

  -- The `n` low bits change places with the first `n` bits of the register.
  transmit_bits-exchange :
      (n tx q rx : ℕ) (xs ys : List Bool) (h : History Pin)
      → rx ≡ q * 2 ^ n
      → length xs ≡ n
      → Waits (peer h) (xs ++ ys)
      → ((transmit_bits sense spi n tx rx h).0 ≡ rx + from_bits xs)
        × Waits (peer (transmit_bits sense spi n tx rx h).1) (ys ++ to_bits n tx)
  unfolding to_bits from_bits
  transmit_bits-exchange zero tx q rx [] ys h r e w =
      unfold transmit_bits in (omega arith, (w.0, w.1, w.2 ∙ sym (append-nil ys)))
  transmit_bits-exchange zero tx q rx (b ∷ xs) ys h r e w = absurd (omega arith)
  transmit_bits-exchange (suc n) tx q rx [] ys h r e w = absurd (omega arith)
  transmit_bits-exchange (suc n) tx q rx (b ∷ xs) ys h r e w =
      let (read, waits) = transmit_bit-exchange tx n rx b (xs ++ ys) h w in
      let (sum, shifted) = bit_or-place n q b r in
      let h' = (transmit_bit sense spi tx n rx h).1 in
      let rest =
        transmit_bits-exchange n tx (2 * q + place b 0) (rx + place b n) xs
          (ys ++ (bit_at tx n ∷ [])) h' shifted (omega arith)
          (waits.0, waits.1, waits.2 ∙ append_assoc xs ys (bit_at tx n ∷ [])) in
      let same_place : place b (length xs) ≡ place b n = ap (place b) (omega arith) in
      rw (transmit_bits-suc n tx rx h, read, sum)
        (
          omega (arith, rest.0, same_place),
          (rest.1.0, rest.1.1, rest.1.2 ∙ append_assoc ys (bit_at tx n ∷ []) (to_bits n tx)),
        )

  -- Wired to a selected shift register of the same clock phase, `transmit_byte` returns the byte of
  -- the register, and the register holds the byte that was sent, ready for the next one.
  pub transmit_byte-exchange :
      (tx : ℕ) (bits : List Bool) (h : History Pin)
      → length bits ≡ 8
      → Waits (peer h) bits
      → ((transmit_byte sense spi tx h).0 ≡ from_bits bits)
        × Waits (peer (transmit_byte sense spi tx h).1) (to_bits 8 tx)
  unfolding transmit_byte
  transmit_byte-exchange tx bits h e w =
      let all =
        transmit_bits-exchange 8 tx 0 0 bits [] h refl e (w.0, w.1, w.2 ∙ sym (append-nil bits)) in
      (omega (arith, all.0), all.1)
