-- ===== src/Prelude/Words.antt =====
-- The operations of `u32` that the program calls, on numbers below 2 ^ 32.
use Prim.Native.Nat.{ℕ, zero, suc, ◌+◌, ◌-◌, ◌%◌, ◌^◌, ◌≤◌, ◌<◌, min}
use native.Mathlib.Nat.{one-le-pow}
use mathlib.Core.Path.{◌≡◌}
use mathlib.Core.Logic.{inl, inr}
use mathlib.Core.Bool.{Bool, true, false, ◌||◌}
use native.Mathlib.Omega.{arith}
use embassy_sandbox.Prelude.Tests.{leb, ◌==◌, ==_iff, Bool-cases}

abbrev pub wrapping_add : ℕ → ℕ → ℕ
wrapping_add a b = (a + b) % 2 ^ 32

abbrev pub wrapping_sub : ℕ → ℕ → ℕ
wrapping_sub a b = (a + 2 ^ 32 - b) % 2 ^ 32

abbrev pub overflowing_add : ℕ → ℕ → ℕ × Bool
overflowing_add a b = ((a + b) % 2 ^ 32, leb (2 ^ 32) (a + b))

abbrev pub saturating_add : ℕ → ℕ → ℕ
saturating_add a b = min (a + b) (2 ^ 32 - 1)

-- `!a`.
abbrev pub complement : ℕ → ℕ
complement a = 2 ^ 32 - 1 - a

power_below : ℕ → ℕ → Bool
power_below zero a = false
power_below (suc k) a = a == 2 ^ k || power_below k a

-- `u32::is_power_of_two`: whether `a` is `2 ^ k` for some `k` below 32.
unfoldable pub is_power_of_two : ℕ → Bool
unfolding power_below
is_power_of_two a = power_below 32 a

power_below-exponent : (n a : ℕ) → power_below n a ≡ true → (k : ℕ) × (k < n) × (a ≡ 2 ^ k)
unfolding power_below
power_below-exponent zero a h = absurd (ground arith)
power_below-exponent (suc n) a h = elim (Bool-cases (a == 2 ^ n)) [
  | inl e ↦ (n, omega arith, (==_iff a (2 ^ n)).0 e)
  | inr e ↦ let (k, below, eq) = power_below-exponent n a (ground arith) in (k, omega arith, eq)
]

-- The exponent of a power of two.
pub is_power_of_two-exponent : (a : ℕ) → is_power_of_two a ≡ true → (k : ℕ) × (k < 32) × (a ≡ 2 ^ k)
unfolding is_power_of_two
is_power_of_two-exponent a h = power_below-exponent 32 a h

pub is_power_of_two-pos : (a : ℕ) → is_power_of_two a ≡ true → 1 ≤ a
is_power_of_two-pos a h =
    let (k, small, e) = is_power_of_two-exponent a h in omega (arith, e, one-le-pow k 2)
