-- ===== src/Bitbang/Quad/Nibbles.antt =====
-- What `QuadSpi` of src/bitbang.rs and a device exchange on four lines.
use embassy_sandbox.Prelude.{ℕ, false, ◌+◌, ◌*◌, ◌/◌, ◌%◌, ◌^◌, ◌≡◌, List, [], ◌∷◌, ◌++◌, length}
use embassy_sandbox.Prelude.{refl, ◌∙◌, ap₂, sym, map, arith, bit_and, bit_and_low}
use mathlib.Core.List.{append-nil, append_assoc}
use embassy_sandbox.Bitbang.Wire.{Level, History}
use embassy_sandbox.Bitbang.Bits.{bit_at, place, nibble_bits, bit_or-nibble}
use embassy_sandbox.Bitbang.Quad.Bytes.{
  Pin, QuadSpi, write_half, quad_write_byte_, read_half, quad_read_byte_,
}
use embassy_sandbox.Bitbang.Quad.Transfers.{quad_read_, quad_write_}
use embassy_sandbox.Bitbang.Quad.Peer.{QuadPeer, peer_after, wired, Waits, nibbles, tail_nibbles}

module _ (spi : QuadSpi) (p : QuadPeer) where
  open spi use {cpha}

  abbrev sense : Pin → History Pin → Level
  sense = wired cpha p

  abbrev peer : History Pin → QuadPeer
  peer h = peer_after cpha p h

  -- The nibble that `write_half` puts on the lines.
  abbrev lines : ℕ → ℕ
  lines n =
      place (bit_at n 0) 0 + place (bit_at n 1) 1 + place (bit_at n 2) 2 + place (bit_at n 3) 3

  write_half-exchange :
      (half tx : ℕ) (taken queue : List ℕ) (h : History Pin)
      → Waits (peer h) taken queue
      → Waits
          (peer (write_half sense spi half tx h).1)
          (taken ++ (lines (bit_and (tx / 2 ^ (half * 4)) 0b1111) ∷ []))
          (tail_nibbles queue)
  unfolding write_half
  write_half-exchange half tx taken queue h w = ground arith

  read_half-exchange :
      (half q n : ℕ) (taken queue : List ℕ) (h : History Pin)
      → Waits (peer h) taken (n ∷ queue)
      → ((read_half sense spi half (q * 16) h).0 ≡ (q * 16 + lines n) * 2 ^ (4 * half) % 2 ^ 8)
        × ((peer (read_half sense spi half (q * 16) h).1).active ≡ false)
        × ((peer (read_half sense spi half (q * 16) h).1).queue ≡ queue)
  unfolding read_half
  read_half-exchange half q n taken queue h w =
      ground (arith, bit_or-nibble q (bit_at n 0) (bit_at n 1) (bit_at n 2) (bit_at n 3))

  lines-nibble : (n : ℕ) → lines (bit_and n 0b1111) ≡ n % 16
  lines-nibble n = omega (arith, nibble_bits (bit_and n 0b1111), bit_and_low 4 n)

  abbrev pub Took : History Pin → List ℕ → Type 0
  Took h taken = ((peer h).active ≡ false) × ((peer h).taken ≡ taken)

  write_byte-Took :
      (tx : ℕ) (taken : List ℕ) (h : History Pin)
      → Took h taken
      → Took (quad_write_byte_ sense spi tx h).1 (taken ++ nibbles (tx ∷ []))
  unfolding quad_write_byte_
  write_byte-Took tx taken h w =
      let h1 = (write_half sense spi 1 tx h).1 in
      let w1 = write_half-exchange 1 tx taken (peer h).queue h (w.0, w.1, refl) in
      let w2 = write_half-exchange 0 tx _ _ h1 w1 in
      let high : lines (bit_and (tx / 2 ^ (1 * 4)) 0b1111) ≡ tx / 16 % 16 =
        lines-nibble (tx / 2 ^ (1 * 4)) in
      let low : lines (bit_and (tx / 2 ^ (0 * 4)) 0b1111) ≡ tx % 16 =
        lines-nibble (tx / 2 ^ (0 * 4)) ∙ omega arith in
      (w2.0, w2.1 ∙ append_assoc taken _ _ ∙ ap₂ (λ a b. taken ++ (a ∷ b ∷ [])) high low)

  pub quad_write_-Took :
      (tx taken : List ℕ) (h : History Pin)
      → Took h taken
      → Took (quad_write_ sense spi tx h).1 (taken ++ nibbles tx)
  unfolding quad_write_
  quad_write_-Took [] taken h w = (w.0, w.1 ∙ sym (append-nil taken))
  quad_write_-Took (t ∷ tx) taken h w =
      let rest = quad_write_-Took tx _ _ (write_byte-Took t taken h w) in
      (rest.0, rest.1 ∙ append_assoc taken (nibbles (t ∷ [])) (nibbles tx))

  abbrev pub Gives : History Pin → List ℕ → Type 0
  Gives h queue = ((peer h).active ≡ false) × ((peer h).queue ≡ queue)

  read_byte-Gives :
      (b : ℕ) (queue : List ℕ) (h : History Pin)
      → Gives h (nibbles (b ∷ []) ++ queue)
      → ((quad_read_byte_ sense spi h).0 ≡ b % 2 ^ 8) × Gives (quad_read_byte_ sense spi h).1 queue
  unfolding quad_read_byte_
  read_byte-Gives b queue h w =
      let h1 = (read_half sense spi 1 0 h).1 in
      let (r1, a1, q1) = read_half-exchange 1 0 (b / 16 % 16) _ _ h (w.0, refl, w.1) in
      let high : (read_half sense spi 1 0 h).0 ≡ b / 16 % 16 * 16 =
        omega (arith, r1, nibble_bits (b / 16 % 16)) in
      let (r2, a2, q2) = read_half-exchange 0 (b / 16 % 16) (b % 16) _ _ h1 (a1, refl, q1) in
      rw high (omega (arith, r2, nibble_bits (b % 16)), (a2, q2))

  pub quad_read_-Gives :
      (rx bs queue : List ℕ) (h : History Pin)
      → length rx ≡ length bs
      → Gives h (nibbles bs ++ queue)
      → ((quad_read_ sense spi rx h).0 ≡ map (λ b. b % 2 ^ 8) bs)
        × Gives (quad_read_ sense spi rx h).1 queue
  unfolding quad_read_
  quad_read_-Gives [] [] queue h e w = (refl, w)
  quad_read_-Gives [] (b ∷ bs) queue h e w = absurd (omega arith)
  quad_read_-Gives (r ∷ rx) [] queue h e w = absurd (omega arith)
  quad_read_-Gives (r ∷ rx) (b ∷ bs) queue h e w =
      let (got, gives) = read_byte-Gives b (nibbles bs ++ queue) h w in
      let rest = quad_read_-Gives rx bs queue _ (omega arith) gives in (ap₂ ◌∷◌ got rest.0, rest.1)
