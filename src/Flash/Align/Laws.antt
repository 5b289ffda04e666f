-- ===== src/Flash/Align/Laws.antt =====
-- The alignment functions of src/flash.rs as arithmetic, and what they promise.
use embassy_sandbox.Prelude.{
  ℕ, ◌+◌, ◌-◌, ◌*◌, ◌/◌, ◌%◌, ◌^◌, ◌≤◌, ◌<◌, bit_and, ◌≡◌, refl, arith, ap,
}
use embassy_sandbox.Prelude.{Bool, true, false, ◌==◌, if◌then◌else◌, ltb}
use embassy_sandbox.Prelude.{
  done, complement, is_power_of_two, is_power_of_two-pos, ◌⊎◌, inl, inr, ◌↔◌, Bool-cases, ==_iff,
}
use embassy_sandbox.Prelude.{
  is_power_of_two-exponent, bit_and_low, bit_and_high, quotient-lt, pow-add,
}
use native.Mathlib.Nat.{
  mul-add-mod_self_right, mod_self, zero-mod, div-add-mod', mul-mod_left, div-mul-le_self,
}
use embassy_sandbox.Prelude.{◌∙◌}
use embassy_sandbox.Flash.Align.{is_aligned_to, align_down, align_up}

abbrev pub up_value : ℕ → ℕ → ℕ × Bool
up_value a n =
    if a % n == 0
    then (a, false)
    else if ltb (a / n * n + n) (2 ^ 32)
    then (a / n * n + n, false)
    else (0, true)

module _ (a n : ℕ) (in_range : a < 2 ^ 32) (power : is_power_of_two n ≡ true) where
  low_bits : bit_and a (n - 1) ≡ a % n
  low_bits = let (k, small, e) = is_power_of_two-exponent n power in rw e (bit_and_low k a)

  bit_and_high_of : (k : ℕ) → k < 32 → bit_and a (complement (2 ^ k - 1)) ≡ a / 2 ^ k * 2 ^ k
  bit_and_high_of k small =
      let e : 32 ≡ 32 - k + k = omega arith in
      let range : a < 2 ^ (32 - k + k) = rw (← e) in_range in
      rw (← e) at (bit_and_high (32 - k) k a range)

  high_bits : bit_and a (complement (n - 1)) ≡ a / n * n
  high_bits = let (k, small, e) = is_power_of_two-exponent n power in rw e (bit_and_high_of k small)

  -- The block of `a` ends at the latest where the addresses end.
  pub block_end-le : a / n * n + n ≤ 2 ^ 32
  block_end-le = let (k, small, e) = is_power_of_two-exponent n power in rw e (block_end_of k small)
    where
      block_end_of : (k : ℕ) → k < 32 → a / 2 ^ k * 2 ^ k + 2 ^ k ≤ 2 ^ 32
      block_end_of k small =
          let e : 32 ≡ 32 - k + k = omega arith in
          let range : a < 2 ^ (32 - k + k) = rw (← e) in_range in
          let whole : 2 ^ 32 ≡ 2 ^ (32 - k) * 2 ^ k = rw (← e) at (pow-add (32 - k) k) in
          grind (arith, quotient-lt (32 - k) k a range)

  -- Alignment is divisibility.
  pub is_aligned_to_lem : is_aligned_to a n ≡ done (a % n == 0)
  unfolding is_aligned_to
  is_aligned_to_lem = rw (power, low_bits)

  pub align_down_lem : align_down a n ≡ done (a / n * n)
  unfolding align_down
  align_down_lem = rw (power, high_bits)

  pub align_up_lem : align_up a n ≡ done (up_value a n)
  unfolding align_up
  align_up_lem = rw (power, is_aligned_to_lem, high_bits) (ground (arith, block_end-le))

up_value-multiple : (a n : ℕ) → (up_value a n).0 % n ≡ 0
up_value-multiple a n = elim (Bool-cases (a % n == 0)) [
  | inl e ↦ rw e ((==_iff (a % n) 0).0 e)
  | inr e ↦ elim (Bool-cases (ltb (a / n * n + n) (2 ^ 32))) [
    | inl f ↦ rw (e, f) (mul-add-mod_self_right (a / n) n n ∙ mod_self n)
    | inr f ↦ rw (e, f) (zero-mod n)
  ]
]

up_value_bounds :
    (a n : ℕ)
    → a < 2 ^ 32
    → is_power_of_two n ≡ true
    → ((up_value a n).1 ≡ false)
        × (a ≤ (up_value a n).0)
        × ((up_value a n).0 < a + n)
        × ((up_value a n).0 < 2 ^ 32)
      ⊎ ((up_value a n).1 ≡ true) × ((up_value a n).0 ≡ 0) × (2 ^ 32 < a + n)
up_value_bounds a n range power = elim (Bool-cases (a % n == 0)) [
  | inl e ↦ rw e (inl (refl, omega arith, omega (arith, is_power_of_two-pos n power), range))
  | inr e ↦ elim (Bool-cases (ltb (a / n * n + n) (2 ^ 32))) [
    | inl f ↦
        rw (e, f)
          (inl (
            refl,
            ground (arith, div-add-mod' a n, is_power_of_two-pos n power),
            ground (arith, div-add-mod' a n, is_power_of_two-pos n power),
            ground (arith, f),
          ))
    | inr f ↦
        rw (e, f) (inr (refl, refl, ground (arith, div-add-mod' a n, is_power_of_two-pos n power)))
  ]
]

-- For a `u32` address `a` and a power of two `n`, `align_up` returns the multiple of `n` in
-- [`a`, `a + n`), which is below 2 ^ 32, and says that it did not wrap, or, where `a + n` is beyond
-- 2 ^ 32, returns 0 and says that it wrapped.
pub align_up-least :
    (a n : ℕ)
    → a < 2 ^ 32
    → is_power_of_two n ≡ true
    → (r : ℕ) × (w : Bool) × (align_up a n ≡ done (r, w))
      × (r % n ≡ 0)
      × ((w ≡ false) × (a ≤ r) × (r < a + n) × (r < 2 ^ 32)
          ⊎ (w ≡ true) × (r ≡ 0) × (2 ^ 32 < a + n))
align_up-least a n range power =
    let value = up_value a n in
    (
      value.0,
      value.1,
      align_up_lem a n range power,
      up_value-multiple a n,
      up_value_bounds a n range power,
    )

up_value-aligned : (a n : ℕ) → a % n ≡ 0 → up_value a n ≡ (a / n * n, false)
up_value-aligned a n e =
    let same : a ≡ a / n * n = omega (arith, div-add-mod' a n) in
    rw ((==_iff (a % n) 0).1 e) (ap (λ x. (x, false)) same)

aligned_of_up_value :
    (a n : ℕ)
    → a < 2 ^ 32
    → is_power_of_two n ≡ true
    → up_value a n ≡ (a / n * n, false)
    → a % n ≡ 0
aligned_of_up_value a n range power h = elim (up_value_bounds a n range power) [
  | inl (stays, above, below, fits) ↦ omega (arith, div-add-mod' a n, above, ap (λ v. v.0) h)
  | inr (wraps, zeroed, past) ↦ cc (wraps, ap (λ v. v.1) h)
]

done-injective {ℓ} : {A : Type ℓ} {x y : A} → done x ≡ done y → x ≡ y
done-injective e = cc

-- `align_down` at a power of two returns the greatest multiple that is not above the address, and
-- `align_up` returns the same one exactly when `is_aligned_to` holds.
pub align_down-greatest :
    (a n : ℕ)
    → a < 2 ^ 32
    → is_power_of_two n ≡ true
    → (r : ℕ) × (align_down a n ≡ done r)
      × (r % n ≡ 0)
      × (r ≤ a)
      × (a < r + n)
      × ((is_aligned_to a n ≡ done true) ↔ (align_up a n ≡ done (r, false)))
align_down-greatest a n range power =
    let pos = is_power_of_two-pos n power in
    (
      a / n * n,
      align_down_lem a n range power,
      mul-mod_left (a / n) n,
      div-mul-le_self a n,
      omega (arith, div-add-mod' a n, pos),
      (
        λ h. rw (align_up_lem a n range power) (
            ap done (
              up_value-aligned a n (
                (==_iff (a % n) 0).0
                  (done-injective (rw (is_aligned_to_lem a n range power) at h))))),
        λ h. rw (is_aligned_to_lem a n range power) (
            ap done (
              (==_iff (a % n) 0).1 (
                aligned_of_up_value a n range power
                  (done-injective (rw (align_up_lem a n range power) at h))))),
      ),
    )
