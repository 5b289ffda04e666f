-- ===== src/Bitbang/Wire.antt =====
-- What src/bitbang.rs uses of embassy_stm32's pins and of `block_for`. An operation on a pin is an
-- event of the history; the level of an input is any function of the history.
use embassy_sandbox.Prelude.{ℕ, Bool, true, false, List, ◌∷◌}

-- `true` is the high level.
abbrev pub Level : Type 0
Level = Bool

pub data Event (Pin : Type 0) : Type 0 where
  set_level : Pin → Level → Event Pin
  toggle : Pin → Event Pin
  set_as_input : Pin → Event Pin
  set_as_output : Pin → Event Pin
  block_for : ℕ → Event Pin

-- The latest event first.
abbrev pub History : Type 0 → Type 0
History Pin = List (Event Pin)

abbrev pub M : Type 0 → Type 0 → Type 0
M Pin A = History Pin → A × History Pin

infixl 5 ◌>>=◌ ◌>>◌
abbrev pub ◌>>=◌ : {Pin A B : Type 0} → M Pin A → (A → M Pin B) → M Pin B
◌>>=◌ m f h = f (m h).0 (m h).1

abbrev pub ◌>>◌ : {Pin B : Type 0} → M Pin (Unit {0}) → M Pin B → M Pin B
◌>>◌ m k h = k (m h).1

abbrev pub pure : {Pin A : Type 0} → A → M Pin A
pure a h = (a, h)

abbrev pub emit : {Pin : Type 0} → Event Pin → M Pin (Unit {0})
emit e h = (tt, e ∷ h)

abbrev pub when : {Pin : Type 0} → Bool → M Pin (Unit {0}) → M Pin (Unit {0})
when true m h = m h
when false m h = (tt, h)

-- `get_level` and `is_high` of an input.
abbrev pub get_level : {Pin : Type 0} → (Pin → History Pin → Level) → Pin → M Pin Level
get_level sense pin h = (sense pin h, h)
