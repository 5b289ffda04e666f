-- ===== src/Bitbang/Spi/Message.antt =====
-- Whole messages of `Spi` in src/bitbang.rs to a shift register.
use embassy_sandbox.Prelude.{ℕ, zero, suc, ◌%◌, ◌^◌, ◌≡◌, refl, ◌∙◌, ap, ap₂, arith}
use embassy_sandbox.Prelude.{Bool, true, false, List, [], ◌∷◌, length}
use embassy_sandbox.Bitbang.Wire.{History, Event, when, emit}
use embassy_sandbox.Bitbang.Types.{is_1}
use embassy_sandbox.Bitbang.Bits.{to_bits, from_bits, from_bits-to_bits, length-to_bits}
use embassy_sandbox.Bitbang.Spi.{Pin, ncs, Spi, transmit_all, transmit}
use embassy_sandbox.Bitbang.Spi.Peer.{Peer, peer_after, wired, Waits}
use embassy_sandbox.Bitbang.Spi.Exchange.{transmit_byte-exchange}

-- What a shift register that holds `s` sends back while the bytes come in, zeros after them: `n`
-- bytes, each a byte late.
pub delayed : ℕ → ℕ → List ℕ → List ℕ
delayed s zero tx = []
delayed s (suc n) [] = s ∷ delayed 0 n []
delayed s (suc n) (t ∷ tx) = s ∷ delayed (t % 2 ^ 8) n tx

module _ (spi : Spi) (p : Peer) where
  open spi use {cpha}

  abbrev received : List ℕ → List ℕ → History Pin → List ℕ
  received tx rx h = (transmit_all (wired cpha p) spi tx rx h).0

  abbrev later : List ℕ → List ℕ → History Pin → Peer
  later tx rx h = peer_after cpha p (transmit_all (wired cpha p) spi tx rx h).1

  transmit_all-exchange :
      (tx rx : List ℕ) (bits : List Bool) (h : History Pin)
      → length bits ≡ 8
      → Waits (peer_after cpha p h) bits
      → (received tx rx h ≡ delayed (from_bits bits) (length rx) tx)
        × ((later tx rx h).selected ≡ true)
        × ((later tx rx h).active ≡ false)
  unfolding transmit_all delayed
  transmit_all-exchange [] [] bits h e w = (refl, w.0, w.1)
  transmit_all-exchange [] (r ∷ rx) bits h e w =
      let (got, waits) = transmit_byte-exchange spi p 0 bits h e w in
      let rest = transmit_all-exchange [] rx (to_bits 8 0) _ (length-to_bits 8 0) waits in
      (
        ap₂ ◌∷◌ got (rest.0 ∙ ap (λ s. delayed s (length rx) []) (from_bits-to_bits 8 0)),
        rest.1,
        rest.2,
      )
  transmit_all-exchange (t ∷ tx) [] bits h e w =
      let (got, waits) = transmit_byte-exchange spi p t bits h e w in
      transmit_all-exchange tx [] (to_bits 8 t) _ (length-to_bits 8 t) waits
  transmit_all-exchange (t ∷ tx) (r ∷ rx) bits h e w =
      let (got, waits) = transmit_byte-exchange spi p t bits h e w in
      let rest = transmit_all-exchange tx rx (to_bits 8 t) _ (length-to_bits 8 t) waits in
      (
        ap₂ ◌∷◌ got (rest.0 ∙ ap (λ s. delayed s (length rx) tx) (from_bits-to_bits 8 t)),
        rest.1,
        rest.2,
      )

  -- The history when the bytes begin.
  abbrev opened : History Pin → History Pin
  opened h =
      (when (is_1 cpha) (emit (Event.block_for spi.min_sck_half_cycle)) (Event.toggle ncs ∷ h)).1

  opened-Waits :
      (bits : List Bool) (h : History Pin)
      → (peer_after cpha p h).selected ≡ false
      → (peer_after cpha p h).active ≡ false
      → (peer_after cpha p h).bits ≡ bits
      → Waits (peer_after cpha p (opened h)) bits
  opened-Waits bits h s a b = ground arith

  -- Wired to an idle shift register of the same clock phase that is not selected, `transmit` fills
  -- the buffer with the byte of the register and then the bytes sent, each a byte late and zeros
  -- after the last; at its end the register is deselected and the clock is idle.
  pub transmit-exchange :
      (tx rx : List ℕ) (bits : List Bool) (h : History Pin)
      → length bits ≡ 8
      → (peer_after cpha p h).selected ≡ false
      → (peer_after cpha p h).active ≡ false
      → (peer_after cpha p h).bits ≡ bits
      → let (buffer, h') = transmit (wired cpha p) spi tx rx h in
        (buffer ≡ delayed (from_bits bits) (length rx) tx)
        × ((peer_after cpha p h').selected ≡ false)
        × ((peer_after cpha p h').active ≡ false)
  unfolding transmit
  transmit-exchange tx rx bits h e s a b =
      let inner = transmit_all-exchange tx rx bits (opened h) e (opened-Waits bits h s a b) in
      (inner.0, ground (arith, inner.1), ground (arith, inner.2))
