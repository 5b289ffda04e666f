-- ===== src/Flash/Fit/Choice.antt =====
-- Which block `best_fit` of src/flash.rs chooses.
use embassy_sandbox.Prelude.{ℕ, ◌+◌, ◌-◌, ◌*◌, ◌/◌, ◌%◌, ◌^◌, ◌≤◌, ◌<◌, ◌≡◌, refl, arith}
use embassy_sandbox.Prelude.{
  true, some, [], ◌∷◌, done, ◌==◌, if◌then◌else◌, ltb, is_power_of_two, is_power_of_two-pos,
}
use embassy_sandbox.Prelude.{wrapping_sub, Bool-cases, inl, inr}
use embassy_sandbox.Flash.Align.Laws.{up_value, align_down_lem, align_up_lem, block_end-le}
use embassy_sandbox.Flash.Range.{RangeInclusive}
use embassy_sandbox.Flash.Fit.{align_4k, align_32k, align_64k, block, weigh, min_by_key, best_fit}
use embassy_sandbox.Flash.Fit.Waste.{
  waste_value, waste-eq_value, waste_value_mono, waste_value_empty,
}

-- The first of three wins a tie.
min_by_key-first :
    (a b c u v w : ℕ) → u ≤ v → u ≤ w → min_by_key ((a, u) ∷ (b, v) ∷ (c, w) ∷ []) ≡ some (a, u)
unfolding min_by_key
min_by_key-first a b c u v w h k = ground arith

-- Address 0 counts as the end of the last block, so its block is everything.
abbrev last : ℕ → ℕ → ℕ
last addr n =
    if addr == 0 then 2 ^ 32 - 1 else if addr % n == 0 then addr - 1 else addr / n * n + n - 1

abbrev span : ℕ → ℕ → RangeInclusive
span addr n = record { start = addr / n * n; end = last addr n }

module _ (addr : ℕ) (in_range : addr < 2 ^ 32) where
  last_lem : (n : ℕ) → is_power_of_two n ≡ true → wrapping_sub (up_value addr n).0 1 ≡ last addr n
  last_lem n power = elim (Bool-cases (addr % n == 0)) [
    | inl e ↦ rw e (ground arith)
    | inr e ↦ elim (Bool-cases (ltb (addr / n * n + n) (2 ^ 32))) [
      | inl f ↦ rw (e, f) (ground (arith, is_power_of_two-pos n power))
      | inr f ↦ rw (e, f) (ground (arith, block_end-le addr n in_range power))
    ]
  ]

  block_lem : (n : ℕ) → is_power_of_two n ≡ true → block addr n ≡ done (n, span addr n)
  unfolding block
  block_lem n power =
      rw
        (align_down_lem addr n in_range power, align_up_lem addr n in_range power, last_lem n power)

  powers :
      (is_power_of_two align_4k ≡ true)
      × (is_power_of_two align_32k ≡ true)
      × (is_power_of_two align_64k ≡ true)
  unfolding is_power_of_two
  powers = (refl, refl, refl)

  module _ (target : RangeInclusive) (fits : target.start < 2 ^ 32) where
    least :
        (waste_value (span addr align_4k) target ≤ waste_value (span addr align_32k) target)
        × (waste_value (span addr align_4k) target ≤ waste_value (span addr align_64k) target)
    least = ground (
      arith,
      waste_value_empty (span addr align_4k) target,
      waste_value_mono (span addr align_4k) (span addr align_32k) target,
      waste_value_mono (span addr align_4k) (span addr align_64k) target,
    )

    weigh_lem : (n : ℕ) (p : RangeInclusive) → weigh target (n, p) ≡ done (n, waste_value p target)
    unfolding weigh
    weigh_lem n p = rw waste-eq_value

    -- `best_fit` is total, and it never chooses more than the smallest block.
    pub best_fit_lem : best_fit addr target ≡ done align_4k
    unfolding best_fit
    best_fit_lem =
        rw
          (
            block_lem align_4k powers.0,
            block_lem align_32k powers.1,
            block_lem align_64k powers.2,
            weigh_lem align_4k,
            weigh_lem align_32k,
            weigh_lem align_64k,
          )
          (rw (min_by_key-first _ _ _ _ _ _ least.0 least.1))
