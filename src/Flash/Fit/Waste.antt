-- ===== src/Flash/Fit/Waste.antt =====
-- `waste` of src/flash.rs never panics, and grows with the block.
use Prim.Native.Nat.{min}
use embassy_sandbox.Prelude.{
  ℕ, ◌+◌, ◌-◌, ◌^◌, ◌≤◌, ◌<◌, ◌≡◌, arith, ◌&&◌, ◌||◌, if◌then◌else◌, done,
}
use embassy_sandbox.Flash.Range.{RangeInclusive, contains, is_empty}
use embassy_sandbox.Flash.Fit.{waste}

-- The same count with plain subtraction.
pub waste_value : RangeInclusive → RangeInclusive → ℕ
waste_value pick target =
    if is_empty pick || contains target pick.start && contains target pick.end
    then 0
    else if contains target pick.end
    then target.start - pick.start
    else if contains target pick.start
    then pick.end - target.end
    else min (pick.end - pick.start + 1) (2 ^ 32 - 1)

pub waste-eq_value :
    (pick target : RangeInclusive) → waste pick target ≡ done (waste_value pick target)
unfolding waste waste_value
waste-eq_value pick target = ground arith

-- A block inside another wastes no more.
pub waste_value_mono :
    (p q target : RangeInclusive)
    → q.start ≤ p.start
    → p.end ≤ q.end
    → q.end < 2 ^ 32
    → target.start < 2 ^ 32
    → waste_value p target ≤ waste_value q target
unfolding waste_value
waste_value_mono p q target starts ends range t = ground arith

pub waste_value_empty : (p target : RangeInclusive) → p.end < p.start → waste_value p target ≡ 0
unfolding waste_value
waste_value_empty p target h = ground arith
