-- ===== src/Prelude/Bits.antt =====
-- `&` and `|` of numbers as arithmetic, at every width.
use Prim.Native.Nat.{
  ℕ, zero, suc, ◌+◌, ◌-◌, ◌*◌, ◌/◌, ◌%◌, ◌^◌, ◌≤◌, ◌<◌, min, max, bit_and, bit_or,
}
use Prim.Native.Nat.{digits, bit_and-bitwise, bit_or-bitwise}
use mathlib.Core.Path.{◌≡◌, refl, sym, ap, ◌∙◌}
use mathlib.Core.WellFounded
use mathlib.Core.WellFounded.{Acc}
use native.Mathlib.Nat.{pow-suc, one-le-pow, mod-eq_of_lt, div-add-mod'}
use native.Mathlib.Nat.{add-mul-mod_self_right}
use native.Mathlib.Omega.{arith}
use embassy_sandbox.Prelude.Order.{lt_wf}

-- Induction that goes from the half of a number to the number.
by_halves {ℓ} : (P : ℕ → Type ℓ) → P 0 → ((n : ℕ) → P (suc n / 2) → P (suc n)) → (n : ℕ) → P n
by_halves P base up n = WellFounded.induction lt_wf {C = P} n λ k below. from_half k below
  where
    from_half : (k : ℕ) → ((m : ℕ) → m < k → P m) → P k
    from_half zero below = base
    from_half (suc k) below = up k (below (suc k / 2) (omega arith))

-- Both operations are defined by a walk over the digits of the first number, with a count of the
-- digits to go. A count that is enough may be raised.
module _ (ends : ℕ → ℕ) (digit : ℕ → ℕ → ℕ) where
  raise : (n a b : ℕ) → a ≤ n → digits ends digit (suc n) a b ≡ digits ends digit n a b
  raise n zero b h = first n
    where
      first : (k : ℕ) → ends b ≡ digits ends digit k 0 b
      first zero = refl
      first (suc k) = refl
  raise zero (suc a) b h = elim h [ ]
  raise (suc n) (suc a) b h =
      ap (λ (t : ℕ). t * 2 + digit (suc a % 2) (b % 2)) (raise n (suc a / 2) (b / 2) (omega arith))

  raise_by : (extra n a b : ℕ) → a ≤ n → digits ends digit (extra + n) a b ≡ digits ends digit n a b
  raise_by zero n a b h = let e : zero + n ≡ n = omega arith in rw e
  raise_by (suc extra) n a b h =
      let e : suc extra + n ≡ suc (extra + n) = omega arith in
      rw e (raise (extra + n) a b (omega arith) ∙ raise_by extra n a b h)

  lowest :
      (a b : ℕ)
      → digits ends digit (suc a) (suc a) b
        ≡ digits ends digit (suc a / 2) (suc a / 2) (b / 2) * 2 + digit (suc a % 2) (b % 2)
  lowest a b =
      let half = suc a / 2 in
      let e : a ≡ a - half + half = omega arith in
      ap (λ (t : ℕ). t * 2 + digit (suc a % 2) (b % 2))
        (ap (λ n. digits ends digit n half (b / 2)) e
          ∙ raise_by (a - half) half half (b / 2) (omega arith))

-- So each has an equation for the lowest digit.
and_lowest : (a b : ℕ) → bit_and a b ≡ bit_and (a / 2) (b / 2) * 2 + min (a % 2) (b % 2)
and_lowest zero b = rw bit_and-bitwise (rw bit_and-bitwise (omega arith))
and_lowest (suc a) b =
    bit_and-bitwise (suc a) b
    ∙ lowest (λ y. 0) min a b
    ∙ ap (λ (t : ℕ). t * 2 + min (suc a % 2) (b % 2)) (sym (bit_and-bitwise (suc a / 2) (b / 2)))

or_lowest : (a b : ℕ) → bit_or a b ≡ bit_or (a / 2) (b / 2) * 2 + max (a % 2) (b % 2)
or_lowest zero b = rw bit_or-bitwise (rw bit_or-bitwise (omega arith))
or_lowest (suc a) b =
    bit_or-bitwise (suc a) b
    ∙ lowest (λ y. y) max a b
    ∙ ap (λ (t : ℕ). t * 2 + max (suc a % 2) (b % 2)) (sym (bit_or-bitwise (suc a / 2) (b / 2)))

and_nothing : (a : ℕ) → bit_and a 0 ≡ 0
and_nothing =
    by_halves (λ a. bit_and a 0 ≡ 0) refl λ n half. omega (arith, half, and_lowest (suc n) 0)

or_nothing : (a : ℕ) → bit_or a 0 ≡ a
or_nothing = by_halves (λ a. bit_or a 0 ≡ a) refl λ n half. omega (arith, half, or_lowest (suc n) 0)

pub mul-pow-suc : (x n : ℕ) → x * 2 ^ suc n ≡ 2 * (x * 2 ^ n)
mul-pow-suc x n =
    let doubled : x * 2 ^ suc n ≡ x * (2 ^ n * 2) = ap (◌*◌ x) (pow-suc 2 n) in
    omega (arith, doubled)

-- The low digits of a number are those of its half, and its lowest.
mod-half : (a k : ℕ) → a % 2 ^ suc k ≡ a / 2 % 2 ^ k * 2 + a % 2
mod-half a k =
    let r = a / 2 % 2 ^ k * 2 + a % 2 in
    let q = a / 2 / 2 ^ k in
    let whole : a ≡ r + q * 2 ^ suc k =
      omega (arith, div-add-mod' (a / 2) (2 ^ k), mul-pow-suc q k) in
    let small : r < 2 ^ suc k = omega (arith, pow-suc 2 k, one-le-pow k 2) in
    ap (λ (t : ℕ). t % 2 ^ suc k) whole
    ∙ add-mul-mod_self_right r q (2 ^ suc k)
    ∙ mod-eq_of_lt small

-- A mask of `k` low bits is the remainder by `2 ^ k`.
pub bit_and_low : (k a : ℕ) → bit_and a (2 ^ k - 1) ≡ a % 2 ^ k
bit_and_low zero a = omega (arith, and_nothing a)
bit_and_low (suc k) a =
    let ones : (2 ^ suc k - 1) / 2 ≡ 2 ^ k - 1 = omega (arith, pow-suc 2 k, one-le-pow k 2) in
    let last : (2 ^ suc k - 1) % 2 ≡ 1 = omega (arith, pow-suc 2 k, one-le-pow k 2) in
    and_lowest a (2 ^ suc k - 1)
    ∙ omega (arith, ap (bit_and (a / 2)) ones, last, bit_and_low k (a / 2), mod-half a k)

-- The other way round, for a number of `k` digits.
pub ones-bit_and : (k a : ℕ) → a < 2 ^ k → bit_and (2 ^ k - 1) a ≡ a
ones-bit_and zero a h = let e : a ≡ 0 = omega arith in rw e
ones-bit_and (suc k) a h =
    let ones : (2 ^ suc k - 1) / 2 ≡ 2 ^ k - 1 = omega (arith, pow-suc 2 k, one-le-pow k 2) in
    let last : (2 ^ suc k - 1) % 2 ≡ 1 = omega (arith, pow-suc 2 k, one-le-pow k 2) in
    and_lowest (2 ^ suc k - 1) a
    ∙ omega (
      arith,
      ap (λ (t : ℕ). bit_and t (a / 2)) ones,
      last,
      ones-bit_and k (a / 2) (omega (arith, pow-suc 2 k)),
    )

-- `(q << k) | r` is a sum when `r` fits `k` bits.
pub bit_or-shifted : (k q r : ℕ) → r < 2 ^ k → bit_or (q * 2 ^ k) r ≡ q * 2 ^ k + r
bit_or-shifted zero q r small =
    let none_left : r ≡ 0 = omega arith in rw none_left (or_nothing (q * 1) ∙ omega arith)
bit_or-shifted (suc k) q r small =
    let even : q * 2 ^ suc k / 2 ≡ q * 2 ^ k = omega (arith, mul-pow-suc q k) in
    let upper = bit_or-shifted k q (r / 2) (omega (arith, pow-suc 2 k)) in
    or_lowest (q * 2 ^ suc k) r
    ∙ omega (arith, ap (λ (t : ℕ). bit_or t (r / 2)) even, upper, mul-pow-suc q k)

-- Setting a digit that is clear adds it.
pub bit_or-digit :
    (k q c b : ℕ)
    → c < 2 ^ k
    → b < 2
    → bit_or (q * 2 ^ suc k + c) (b * 2 ^ k) ≡ q * 2 ^ suc k + c + b * 2 ^ k
bit_or-digit zero q c b h d =
    let none_left : c ≡ 0 = omega arith in
    let half : (q * 2 ^ 1 + c) / 2 ≡ q = omega arith in
    let nothing : b * 2 ^ 0 / 2 ≡ 0 = omega arith in
    or_lowest (q * 2 ^ 1 + c) (b * 2 ^ 0) ∙ rw (half, nothing, or_nothing q) (omega arith)
bit_or-digit (suc k) q c b h d =
    let half : (q * 2 ^ suc (suc k) + c) / 2 ≡ q * 2 ^ suc k + c / 2 =
      omega (arith, mul-pow-suc q (suc k)) in
    let half' : b * 2 ^ suc k / 2 ≡ b * 2 ^ k = omega (arith, mul-pow-suc b k) in
    let upper = bit_or-digit k q (c / 2) b (omega (arith, pow-suc 2 k)) d in
    or_lowest (q * 2 ^ suc (suc k) + c) (b * 2 ^ suc k)
    ∙ rw (half, half', upper) (omega (arith, mul-pow-suc q (suc k), mul-pow-suc b k))

-- A mask whose `k` low bits are clear acts on the digits above them.
bit_and_shifted :
    (k m q r : ℕ) → r < 2 ^ k → bit_and (q * 2 ^ k + r) (m * 2 ^ k) ≡ bit_and q m * 2 ^ k
bit_and_shifted zero m q r fits =
    let low : q * 2 ^ 0 + r ≡ q = omega arith in
    let mask : m * 2 ^ 0 ≡ m = omega arith in rw (low, mask) (omega arith)
bit_and_shifted (suc k) m q r fits = ground (
  arith,
  and_lowest (q * 2 ^ suc k + r) (m * 2 ^ suc k),
  mul-pow-suc q k,
  mul-pow-suc m k,
  mul-pow-suc (bit_and q m) k,
  pow-suc 2 k,
  bit_and_shifted k m q (r / 2) (omega arith),
)

pub pow-add : (i k : ℕ) → 2 ^ (i + k) ≡ 2 ^ i * 2 ^ k
pow-add zero k = let e : zero + k ≡ k = omega arith in rw e (omega arith)
pow-add (suc i) k =
    let e : suc i + k ≡ suc (i + k) = omega arith in
    rw e (omega (arith, pow-suc 2 (i + k), pow-suc 2 i, pow-add i k, mul-pow-suc (2 ^ k) i))

high_mask : (i k : ℕ) → 2 ^ (i + k) - 1 - (2 ^ k - 1) ≡ (2 ^ i - 1) * 2 ^ k
high_mask i k =
    let whole : 2 ^ i ≡ suc (2 ^ i - 1) = omega (arith, one-le-pow i 2) in
    omega (arith, pow-add i k, one-le-pow k 2, ap (λ (t : ℕ). t * 2 ^ k) whole)

pub quotient-lt : (i k a : ℕ) → a < 2 ^ (i + k) → a / 2 ^ k < 2 ^ i
quotient-lt i k a fits = grind (arith, pow-add i k, one-le-pow k 2)

-- `a & !(2 ^ k - 1)` of `i + k` bits clears the `k` low digits.
pub bit_and_high :
    (i k a : ℕ) → a < 2 ^ (i + k) → bit_and a (2 ^ (i + k) - 1 - (2 ^ k - 1)) ≡ a / 2 ^ k * 2 ^ k
bit_and_high i k a fits = rw (high_mask i k) (
    ap (λ (t : ℕ). bit_and t ((2 ^ i - 1) * 2 ^ k)) (sym (div-add-mod' a (2 ^ k)))
    ∙ (bit_and_shifted k (2 ^ i - 1) (a / 2 ^ k) (a % 2 ^ k) (omega (arith, one-le-pow k 2))
        ∙ ap (λ (t : ℕ). t * 2 ^ k)
            (bit_and_low i (a / 2 ^ k) ∙ mod-eq_of_lt (quotient-lt i k a fits))))
