-- ===== src/Flash/Range.antt =====
-- `core::range::RangeInclusive<u32>`, as src/flash.rs uses it.
use embassy_sandbox.Prelude.{ℕ, Bool, not, ◌&&◌, leb}

pub record RangeInclusive : Type 0 where
  pub start : ℕ
  pub end : ℕ

abbrev pub contains : RangeInclusive → ℕ → Bool
contains range x = leb range.start x && leb x range.end

abbrev pub is_empty : RangeInclusive → Bool
is_empty range = not (leb range.start range.end)
