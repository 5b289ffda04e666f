-- ===== src/Firmware.antt =====
-- src/main.rs: the entry of the firmware. `echo` and `blink` are in modules of their own.
use embassy_sandbox.Prelude.{ℕ, zero, suc, List, [], ◌∷◌, codes, Outcome, starved}
use embassy_sandbox.Clocks.{Rcc, config}

abbrev pub hostname : List ℕ
hostname = codes "STM32F7-DISCO"

abbrev pub mac_addr : List ℕ
mac_addr = 0x02 ∷ 0xC7 ∷ 0x52 ∷ 0x67 ∷ 0x83 ∷ 0xEF ∷ []

pub data Pull : Type 0 where
  none up down : Pull

-- The microcontroller and its button. `default` is embassy's default configuration.
pub record Machine (Others Rest : Type 0) : Type 1 where
  pub World : Type 0
  pub default : Rcc Others × Rest
  pub init : Rcc Others × Rest → World → World
  pub new_button : Pull → World → World
  pub wait_for_falling_edge : World → World

module _ {Others Rest : Type 0} (machine : Machine Others Rest) where
  open machine use {World, default, init, new_button, wait_for_falling_edge}

  -- The loop of `_main`, which does not end, for so many rounds.
  unfoldable pub waits : ℕ → World → Outcome World
  waits zero w = starved
  waits (suc n) w = waits n (wait_for_falling_edge w)

  unfoldable pub _main : ℕ → World → Outcome World
  _main n w =
      let (configured, ahb_freq) = config default.0 default.1 in
      waits n (new_button Pull.down (init configured w))

  unfoldable pub main : ℕ → World → Outcome World
  main n w = _main n w
