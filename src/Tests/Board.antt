-- ===== src/Tests/Board.antt =====
-- Theorems on `blink` and `config` of src/main.rs at concrete inputs, and runs of what handles pins
-- and texts.
use embassy_sandbox.Prelude.{codes, refl, List, [], ◌∷◌}
use embassy_sandbox.Prelude.{
  ℕ, zero, suc, ◌/◌, ◌%◌, ◌<◌, ◌≡◌, ◌↔◌, arith, Bool, true, false, ◌&&◌, ltb, ◌==◌, none, some,
  panic,
}
use embassy_sandbox.Blink.{ld1, ld2, blink}
use embassy_sandbox.Blink.Times.{is_on, blink-is_on}
use embassy_sandbox.Clocks.{Rcc, PllSource, Sysclk, config}
use embassy_sandbox.Clocks.Laws.{AtMost, ahb, apb1, config-new-panics_iff}
use embassy_sandbox.Flash.Simulated.{simulated}
use embassy_sandbox.Flash.Setup.{new}
use embassy_sandbox.Flash.Reset.{Pins, reset}
use embassy_sandbox.Echo.Dhcp.{DhcpConfig, dhcp_config}
use embassy_sandbox.Tftp.Errors.{reason, display}
use embassy_sandbox.Tftp.Net.{TransferError}
use embassy_sandbox.Tftp.Simulated.{lan}
use embassy_sandbox.Tests.Setup.{board, cells, prescaler}

-- The signal comes in the first pass.
abbrev signaled : ℕ → Bool
signaled zero = false
signaled (suc i) = true

blink-is_on_example :
    (is_on ld1 true (blink signaled 3) 2700 ≡ (2700 / 500 % 2 == 0))
    × (is_on ld2 false (blink signaled 3) 2700 ≡ (signaled (2700 / 2000) && ltb (2700 % 2000) 1000))
blink-is_on_example = blink-is_on signaled 3 2700 true (omega arith)

abbrev defaults : Rcc ℕ
defaults = record {
  hsi = true;
  pll = none;
  pll_src = PllSource.hsi;
  sys = Sysclk.hsi;
  apb1_pre = 1;
  ahb_pre = 1;
  others = 0;
}

abbrev rest : ℕ
rest = 0

config-new-panics_iff_example :
    (ahb none (config defaults rest).0.0 ≡ some (config defaults rest).1)
    × AtMost 54000000 (apb1 none (config defaults rest).0.0)
    × ((new simulated board 22 (config defaults rest).1 prescaler 2 3 none cells ≡ panic)
        ↔ (prescaler < 2))
config-new-panics_iff_example =
    config-new-panics_iff none defaults rest simulated board 22 prescaler 2 3 none cells
      (λ freq slow. omega arith)

-- What is done with the pins, the latest first; a pin is a number, and so is a time.
abbrev pins : Pins
pins = record {
  Pin = ℕ;
  World = List (ℕ × Bool);
  output = λ level pin w. (pin, level) ∷ w;
  set_high = λ pin w. (pin, true) ∷ w;
  after_micros = λ n w. (n, false) ∷ w;
}

-- Pin 1 is low for 20 microseconds while pin 0 is high.
reset_run : reset pins 0 1 [] ≡ (20, false) ∷ (1, true) ∷ (20, false) ∷ (1, false) ∷ (0, true) ∷ []
unfolding reset
reset_run = refl

abbrev default : DhcpConfig ℕ
default = record { hostname = none; discover_timeout = 10; initial_request_timeout = 5; others = 3 }

too_long_run : dhcp_config 4 default (codes "STM32F7-DISCO") ≡ none
unfolding dhcp_config
too_long_run = refl

display_run : display lan (TransferError.recv true) ≡ codes "file transfer failed: UDP receive"
unfolding display reason
display_run = refl
