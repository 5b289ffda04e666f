-- ===== src/Flash/Reset.antt =====
-- `reset` of src/flash.rs: what it does with its two pins, and the time between.
use embassy_sandbox.Prelude.{ℕ, Bool, true, false}

pub record Pins : Type 1 where
  pub Pin : Type 0
  pub World : Type 0
  -- `gpio::Output::new` at a level, kept by `forget`.
  pub output : Bool → Pin → World → World
  pub set_high : Pin → World → World
  pub after_micros : ℕ → World → World

module _ (pins : Pins) where
  open pins use {Pin, World, output, set_high, after_micros}

  unfoldable pub reset : Pin → Pin → World → World
  reset ncs nreset w =
      let w1 = output false nreset (output true ncs w) in
      after_micros 20 (set_high nreset (after_micros 20 w1))
