-- ===== src/Flash/Fit.antt =====
-- The choice of the block to erase in src/flash.rs: `waste` and `best_fit` of `Device::erase`.
pub mod Waste
pub mod Choice
use embassy_sandbox.Prelude.{ℕ, zero, suc, ◌-◌, ◌*◌, Bool, ◌&&◌, ◌||◌, ltb, if◌then◌else◌}
use embassy_sandbox.Prelude.{Option, none, some, List, [], ◌∷◌}
use embassy_sandbox.Prelude.{Outcome, done, ◌>>=◌, expect, checked_sub, map_each}
use embassy_sandbox.Prelude.{wrapping_sub, saturating_add}
use embassy_sandbox.Flash.Align.{align_down, align_up}
use embassy_sandbox.Flash.Range.{RangeInclusive, contains, is_empty}

abbrev pub align_4k : ℕ
align_4k = 4 * 1024

abbrev pub align_32k : ℕ
align_32k = 32 * 1024

abbrev pub align_64k : ℕ
align_64k = 64 * 1024

-- How much of `pick` lies outside of `target`, as the source counts it.
unfoldable pub waste : RangeInclusive → RangeInclusive → Outcome ℕ
waste pick target =
    if is_empty pick || contains target pick.start && contains target pick.end
    then done 0
    else if contains target pick.end
    then checked_sub target.start pick.start
    else if contains target pick.start
    then checked_sub pick.end target.end
    else do length ← checked_sub pick.end pick.start; done (saturating_add length 1)

-- The block of `addr` at an alignment; it is empty where `addr` is aligned.
unfoldable pub block : ℕ → ℕ → Outcome (ℕ × RangeInclusive)
block addr a = do
  down ← align_down addr a
  up ← align_up addr a
  done (a, record { start = down; end = wrapping_sub up.0 1 })

unfoldable pub weigh : RangeInclusive → ℕ × RangeInclusive → Outcome (ℕ × ℕ)
weigh target (a, pick) = do w ← waste pick target; done (a, w)

min_from : ℕ × ℕ → List (ℕ × ℕ) → ℕ × ℕ
min_from best [] = best
min_from best (x ∷ xs) = min_from (if ltb x.1 best.1 then x else best) xs

-- `Iterator::min_by_key` by the second field: the first of the least elements.
unfoldable pub min_by_key : List (ℕ × ℕ) → Option (ℕ × ℕ)
unfolding min_from
min_by_key [] = none
min_by_key (x ∷ xs) = some (min_from x xs)

unfoldable pub best_fit : ℕ → RangeInclusive → Outcome ℕ
best_fit addr target = do
  blocks ← map_each (block addr) (align_4k ∷ align_32k ∷ align_64k ∷ [])
  weighed ← map_each (weigh target) blocks
  best ← expect (min_by_key weighed)
  done best.0
