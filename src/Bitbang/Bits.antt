-- ===== src/Bitbang/Bits.antt =====
-- The bits of a byte, as src/bitbang.rs shifts them out and in, most significant first.
use embassy_sandbox.Prelude.{ℕ, zero, suc, ◌+◌, ◌*◌, ◌/◌, ◌%◌, ◌^◌, ◌≤◌, ◌<◌, ◌≡◌, refl, ◌∙◌, arith}
use native.Mathlib.Nat.{
  pow-suc, one-le-pow, div-add-mod', mod-eq_of_lt, add_comm, add-mul-mod_self_right,
}
use mathlib.Core.Path.{ap₂}
use embassy_sandbox.Prelude.{
  Bool, true, false, ◌==◌, if◌then◌else◌, bit_and, bit_or, bit_or-shifted, bit_or-digit,
}
use embassy_sandbox.Prelude.{List, [], ◌∷◌, length, ap, bit_and_low, mul-pow-suc}

-- `byte >> bit_pos & 1 == 1`.
abbrev pub bit_at : ℕ → ℕ → Bool
bit_at byte bit_pos = bit_and (byte / 2 ^ bit_pos) 1 == 1

-- `(level as u8) << bit_pos`.
abbrev pub place : Bool → ℕ → ℕ
place level bit_pos = (if level then 1 else 0) * 2 ^ bit_pos

-- The low `n` bits of a byte from the highest of them down.
unfoldable pub to_bits : ℕ → ℕ → List Bool
to_bits zero byte = []
to_bits (suc n) byte = bit_at byte n ∷ to_bits n byte

-- The number that bits stand for.
unfoldable pub from_bits : List Bool → ℕ
from_bits [] = 0
from_bits (b ∷ bs) = place b (length bs) + from_bits bs

pub bit_at-digit : (byte n : ℕ) → place (bit_at byte n) n ≡ byte / 2 ^ n % 2 * 2 ^ n
bit_at-digit byte n = ground (arith, bit_and_low 1 (byte / 2 ^ n))

pub length-to_bits : (n byte : ℕ) → length (to_bits n byte) ≡ n
unfolding to_bits
length-to_bits zero byte = refl
length-to_bits (suc n) byte = ap suc (length-to_bits n byte)

-- Splitting off the highest of `n + 1` low digits.
pub mod-two-pow-suc : (a n : ℕ) → a % 2 ^ suc n ≡ a / 2 ^ n % 2 * 2 ^ n + a % 2 ^ n
mod-two-pow-suc a n =
    let q = a / 2 ^ n in
    let digits : q ≡ q / 2 * 2 + q % 2 = omega arith in
    let scaled : q * 2 ^ n ≡ (q / 2 * 2 + q % 2) * 2 ^ n = ap (λ (t : ℕ). t * 2 ^ n) digits in
    let whole : a ≡ q / 2 * 2 ^ suc n + (q % 2 * 2 ^ n + a % 2 ^ n) =
      omega (arith, scaled, mul-pow-suc (q / 2) n, div-add-mod' a (2 ^ n)) in
    let digit : q % 2 * 2 ^ n ≤ 1 * 2 ^ n = grind arith in
    let small : q % 2 * 2 ^ n + a % 2 ^ n < 2 ^ suc n =
      omega (arith, pow-suc 2 n, one-le-pow n 2) in
    ap (λ (t : ℕ). t % 2 ^ suc n) (whole ∙ add_comm (q / 2 * 2 ^ suc n) (q % 2 * 2 ^ n + a % 2 ^ n))
    ∙ add-mul-mod_self_right (q % 2 * 2 ^ n + a % 2 ^ n) (q / 2) (2 ^ suc n)
    ∙ mod-eq_of_lt small

pub from_bits-to_bits : (n byte : ℕ) → from_bits (to_bits n byte) ≡ byte % 2 ^ n
unfolding to_bits from_bits
from_bits-to_bits zero byte = omega arith
from_bits-to_bits (suc n) byte =
    rw (length-to_bits n byte, mod-two-pow-suc byte n)
      (ap₂ ◌+◌ (bit_at-digit byte n) (from_bits-to_bits n byte))

-- A bit that is set below all that was read so far adds to it.
pub bit_or-place :
    (n q : ℕ) (b : Bool) {rx : ℕ}
    → rx ≡ q * 2 ^ suc n
    → (bit_or rx (place b n) ≡ rx + place b n) × (rx + place b n ≡ (2 * q + place b 0) * 2 ^ n)
bit_or-place n q true e = (
  rw e (bit_or-shifted (suc n) q (1 * 2 ^ n) (omega (arith, pow-suc 2 n, one-le-pow n 2))),
  omega (arith, e, mul-pow-suc q n),
)
bit_or-place n q false e = (
  rw e (bit_or-shifted (suc n) q (0 * 2 ^ n) (omega (arith, one-le-pow (suc n) 2))),
  omega (arith, e, mul-pow-suc q n),
)

-- The bits of a nibble in turn from the lowest up, or one after the other into a byte whose low
-- nibble is clear.
pub nibble_bits :
    (n : ℕ)
    → place (bit_at n 0) 0 + place (bit_at n 1) 1 + place (bit_at n 2) 2 + place (bit_at n 3) 3
      ≡ n % 16
nibble_bits n =
    omega (arith, bit_at-digit n 0, bit_at-digit n 1, bit_at-digit n 2, bit_at-digit n 3)

pub place-digit : (b : Bool) (k : ℕ) → place b k ≡ place b 0 * 2 ^ k
place-digit true k = omega arith
place-digit false k = omega arith

pub place-lt : (b : Bool) → place b 0 < 2
place-lt true = omega arith
place-lt false = omega arith

bit_or-place_above :
    (k q c : ℕ) (b : Bool) {rx : ℕ}
    → rx ≡ q * 2 ^ suc k + c
    → c < 2 ^ k
    → bit_or rx (place b k) ≡ rx + place b k
bit_or-place_above k q c b e h =
    rw (e, place-digit b k) (bit_or-digit k q c (place b 0) h (place-lt b))

pub bit_or-nibble :
    (q : ℕ) (a b c d : Bool)
    → bit_or (bit_or (bit_or (bit_or (q * 16) (place a 0)) (place b 1)) (place c 2)) (place d 3)
      ≡ q * 16 + (place a 0 + place b 1 + place c 2 + place d 3)
bit_or-nibble q a b c d =
    let a<2 = place-lt a in
    let b<2 = place-lt b in
    let c<2 = place-lt c in
    let eb = place-digit b 1 in
    let ec = place-digit c 2 in
    let r1 = q * 16 + place a 0 in
    let r2 = r1 + place b 1 in
    let r3 = r2 + place c 2 in
    rw
      (
        bit_or-place_above 0 (8 * q) 0 a {rx = q * 16} (omega arith) (omega arith),
        bit_or-place_above 1 (4 * q) (place a 0) b {rx = r1} (omega arith) (omega arith),
        bit_or-place_above 2 (2 * q) (place a 0 + place b 1) c {rx = r2} (omega arith)
            (omega arith),
        bit_or-place_above 3 q (place a 0 + place b 1 + place c 2) d {rx = r3} (omega arith)
            (omega arith),
      )
      (omega arith)
