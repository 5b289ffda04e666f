-- ===== src/Bitbang/Quad/Listener/Takes.antt =====
-- What a selected device takes in while `QuadSpi` of src/bitbang.rs sends bytes, on one line or four.
use embassy_sandbox.Prelude.{ℕ, zero, suc, ◌+◌, ◌*◌, ◌/◌, ◌%◌, ◌^◌, ◌≡◌, Bool, true, false}
use embassy_sandbox.Prelude.{List, [], ◌∷◌, ◌++◌, refl, ◌∙◌, ap, sym, arith}
use embassy_sandbox.Prelude.{bit_and, bit_and_low, mul-pow-suc}
use mathlib.Core.List.{append-nil, append_assoc}
use embassy_sandbox.Bitbang.Wire.{Level, History, M, ◌>>=◌, pure}
use embassy_sandbox.Bitbang.Bits.{
  bit_at, place, nibble_bits, mod-two-pow-suc, bit_at-digit, place-lt, place-digit,
}
use embassy_sandbox.Bitbang.Quad.Bytes.{
  Pin, QuadSpi, single_bit, single_bits, single_transmit_byte_, write_half, quad_write_byte_,
  dummy_cycle,
}
use embassy_sandbox.Bitbang.Quad.Listener.{Listener, heard, Reader, bits, two_nibbles}

-- A device that is in a selection, with its clock idle.
abbrev pub Ready : Listener → Type 0
Ready q = (q.selected ≡ true) × (q.active ≡ false)

-- From `q` to `r` a device in a selection takes in nibbles of which `P` holds.
abbrev pub Adds : (List ℕ → Type 0) → Listener → Listener → Type 0
Adds P q r =
    Ready r × (r.frames ≡ q.frames) × (new : List ℕ) × (r.current ≡ q.current ++ new) × P new

-- A reader finds `x` at the front, and leaves the rest.
abbrev pub Reads : {X : Type 0} → Reader X → X → List ℕ → Type 0
Reads {X} reader x new = (rest : List ℕ) → reader (new ++ rest) ≡ (x, rest)

pub Adds-both :
    {P Q R : List ℕ → Type 0} (q r s : Listener)
    → ((a b : List ℕ) → P a → Q b → R (a ++ b))
    → Adds P q r
    → Adds Q r s
    → Adds R q s
Adds-both q r s both (ready_r, frames_r, a, current_r, holds_a)
      (ready, frames_s, b, current_s, holds_b) =
    (
      ready,
      frames_s ∙ frames_r,
      a ++ b,
      current_s ∙ ap (λ ns. ns ++ b) current_r ∙ append_assoc q.current a b,
      both a b holds_a holds_b,
    )

-- One nibble, of which `P` holds.
abbrev pub One : (ℕ → Type 0) → List ℕ → Type 0
One P new = (v : ℕ) × (new ≡ v ∷ []) × P v

-- From `q` to `r` a device in a selection takes in the one nibble `v`.
abbrev pub AddsOne : ℕ → Listener → Listener → Type 0
AddsOne v q r = Ready r × (r.frames ≡ q.frames) × (r.current ≡ q.current ++ (v ∷ []))

pub Adds-One : {P : ℕ → Type 0} (v : ℕ) (q r : Listener) → P v → AddsOne v q r → Adds (One P) q r
Adds-One v q r holds (ready, frames, current) = (ready, frames, v ∷ [], current, (v, refl, holds))

lowest : (b : Bool) (n : ℕ) → (place b 0 + n * 2) % 2 ≡ place b 0
lowest b n = omega (arith, place-lt b)

-- The nibble that `write_half` puts on the lines.
abbrev lines : ℕ → ℕ
lines n = place (bit_at n 0) 0 + place (bit_at n 1) 1 + place (bit_at n 2) 2 + place (bit_at n 3) 3

lines-nibble : (n : ℕ) → lines (bit_and n 0b1111) ≡ n % 16
lines-nibble n = omega (arith, nibble_bits (bit_and n 0b1111), bit_and_low 4 n)

-- The value of one more bit and those below it.
next_value :
    (acc tx n v : ℕ)
    → v % 2 ≡ place (bit_at tx n) 0
    → (acc * 2 + v % 2) * 2 ^ n + tx % 2 ^ n ≡ acc * 2 ^ suc n + tx % 2 ^ suc n
next_value acc tx n v low =
    let digit = bit_at-digit tx n in
    let placed = place-digit (bit_at tx n) n in
    let scaled : v % 2 * 2 ^ n ≡ tx / 2 ^ n % 2 * 2 ^ n = rw low (sym placed ∙ digit) in
    omega (arith, scaled, mod-two-pow-suc tx n, mul-pow-suc acc n)

module _ (sense : Pin → History Pin → Level) (spi : QuadSpi) (p : Listener) where
  open spi use {cpha}

  abbrev pub Takes : {A : Type 0} → M Pin A → (List ℕ → Type 0) → Type 0
  Takes {A} m P =
      (h : History Pin) → Ready (heard cpha p h) → Adds P (heard cpha p h) (heard cpha p (m h).1)

  pub takes_both :
      {A B : Type 0} {P Q R : List ℕ → Type 0} (m : M Pin A) (f : A → M Pin B)
      → ((a b : List ℕ) → P a → Q b → R (a ++ b))
      → Takes m P
      → ((x : A) → Takes (f x) Q)
      → Takes (m >>= f) R
  takes_both m f both first next h w =
      let one = first h w in
      let last = next (m h).0 (m h).1 one.0 in
      Adds-both (heard cpha p h) (heard cpha p (m h).1) (heard cpha p (f (m h).0 (m h).1).1) both
        one last

  pub takes_nothing : {A : Type 0} {P : List ℕ → Type 0} (x : A) → P [] → Takes (pure x) P
  takes_nothing x holds h w = (w, refl, [], sym (append-nil (heard cpha p h).current), holds)

  pub takes_as :
      {A : Type 0} {P Q : List ℕ → Type 0} (m : M Pin A)
      → ((a : List ℕ) → P a → Q a)
      → Takes m P
      → Takes m Q
  takes_as m weaker takes h w =
      let (ready, frames, new, current, holds) = takes h w in
      (ready, frames, new, current, weaker new holds)

  pub single_bit-Takes :
      (tx pos rx : ℕ)
      → Takes (single_bit sense spi tx pos rx) (One (λ v. v % 2 ≡ place (bit_at tx pos) 0))
  unfolding single_bit
  single_bit-Takes tx pos rx h w =
      let q = heard cpha p h in
      let n = place q.line1 0 + place q.line2 1 + place q.line3 2 in
      Adds-One (place (bit_at tx pos) 0 + n * 2) q
        (heard cpha p (single_bit sense spi tx pos rx h).1) (lowest (bit_at tx pos) n)
        (ground arith)

  pub dummy_cycle-Takes : Takes (dummy_cycle sense spi) (One (λ v. Unit {0}))
  unfolding dummy_cycle
  dummy_cycle-Takes h w =
      let q = heard cpha p h in
      let v = place q.line0 0 + place q.line1 1 + place q.line2 2 + place q.line3 3 in
      Adds-One v q (heard cpha p (dummy_cycle sense spi h).1) tt (ground arith)

  write_half-Takes :
      (half tx : ℕ) → Takes (write_half sense spi half tx) (One (λ v. v ≡ tx / 2 ^ (half * 4) % 16))
  unfolding write_half
  write_half-Takes half tx h w =
      let n = tx / 2 ^ (half * 4) in
      Adds-One (lines (bit_and n 0b1111)) (heard cpha p h)
        (heard cpha p (write_half sense spi half tx h).1) (lines-nibble n) (ground arith)

  -- A byte on four lines is two nibbles, the high one first.
  pub quad_write_byte_-Takes :
      (tx : ℕ) → Takes (quad_write_byte_ sense spi tx) (Reads two_nibbles (tx % 2 ^ 8))
  unfolding quad_write_byte_ two_nibbles
  quad_write_byte_-Takes tx =
      takes_both (write_half sense spi 1 tx) (λ x. write_half sense spi 0 tx)
        (λ a b (u, ea, eu) (v, eb, ev) rest.
          rw (ea, eb, eu, ev) (ap (λ (x : ℕ). (x, rest)) (omega arith)))
        (write_half-Takes 1 tx) (λ x. write_half-Takes 0 tx)

  single_bits-Takes :
      (n tx rx : ℕ)
      → Takes
          (single_bits sense spi n tx rx)
          (λ new. (acc : ℕ) → Reads (bits n acc) (acc * 2 ^ n + tx % 2 ^ n) new)
  unfolding single_bits bits
  single_bits-Takes zero tx rx =
      takes_nothing rx (λ acc rest. ap (λ (x : ℕ). (x, rest)) (omega arith))
  single_bits-Takes (suc n) tx rx =
      takes_both {Q = λ new. (acc : ℕ) → Reads (bits n acc) (acc * 2 ^ n + tx % 2 ^ n) new}
        (single_bit sense spi tx n rx) (single_bits sense spi n tx)
        (λ a b (v, ea, low) others acc rest.
          rw ea
            (others (acc * 2 + v % 2) rest ∙ ap (λ (x : ℕ). (x, rest)) (next_value acc tx n v low)))
        (single_bit-Takes tx n rx) (single_bits-Takes n tx)

  pub single_transmit_byte_-Takes :
      (tx : ℕ) → Takes (single_transmit_byte_ sense spi tx) (Reads (bits 8 0) (tx % 2 ^ 8))
  unfolding single_transmit_byte_
  single_transmit_byte_-Takes tx =
      takes_as (single_bits sense spi 8 tx 0)
        (λ a reads rest. reads 0 rest ∙ ap (λ (x : ℕ). (x, rest)) (omega arith))
        (single_bits-Takes 8 tx 0)
