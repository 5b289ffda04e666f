-- ===== src/Tests/Setup.antt =====
-- The theorem on `Device::new` of src/flash.rs at a concrete input: 64 MHz, halved.
use embassy_sandbox.Prelude.{
  ℕ, suc, ◌*◌, ◌/◌, ◌^◌, ◌≤◌, ◌≡◌, ◌↔◌, ◌⊎◌, refl, arith, false, none, panic, List, [], ◌∷◌, done,
}
use embassy_sandbox.Flash.Transfer
use embassy_sandbox.Flash.Range.{RangeInclusive}
use embassy_sandbox.Flash.Device.{Device}
use embassy_sandbox.Flash.Program.Laws.{gap}
use embassy_sandbox.Flash.Sessions.{Call, Returns, answers, effects, session}
use embassy_sandbox.Flash.Simulated.{Cells, simulated, sim_chip}
use embassy_sandbox.Flash.Setup.{Board, max_freq, new}
use embassy_sandbox.Flash.Setup.Laws.{new-panics_iff}
use embassy_sandbox.Flash.Setup.Session.{StartUp, new-session}

abbrev pub board : Board simulated
board = record {
  Pin = ℕ;
  hold_high = λ pin bus. bus;
  new_bank1 = λ config bus. bus;
  cycles_of = λ ns freq. suc (ns * freq / 1000000000);
}

abbrev pub cells : Cells
cells = record { cell = λ x. 255; enabled = false; wide = false; busy = 0 }

abbrev pub prescaler : ℕ
prescaler = 2

new-panics_iff_example :
    (new simulated board 22 64000000 prescaler 2 3 none cells ≡ panic)
    ↔ ((prescaler ≡ 0) ⊎ (max_freq ≤ 64000000 / prescaler))
new-panics_iff_example =
    new-panics_iff simulated board 22 64000000 prescaler 2 3 none cells (λ freq slow. omega arith)

starts : StartUp simulated sim_chip board
unfolding sim_chip Transfer.rst Transfer.rsten Transfer.en4b Transfer.rdid Transfer.rdcr
starts = record {
  hold_high_keeps = λ pin b ready. (ready, refl);
  new_bank1_keeps = λ config b ready. (ready, refl);
  rst_keeps = λ b ready. (refl, refl);
  en4b_keeps = λ b ready. (ready, refl);
  en4b_wide = λ b ready. refl;
  rdid_wide = λ b. refl;
  rdcr_wide = λ b. refl;
  rdid_keeps = λ b ready. (ready, refl);
  rdcr_keeps = λ b ready. (ready, refl);
}

abbrev range : RangeInclusive
range = record { start = 5000; end = 9000 }

abbrev calls : List Call
calls = Call.erases range ∷ Call.programs (7 ∷ 8 ∷ 9 ∷ []) 5118 ∷ Call.reads 3 5118 ∷ []

new-session_example :
    (device : Device simulated) × (new simulated board 22 64000000 prescaler 2 3 none cells
      ≡ done device)
    × Returns simulated 3 3 sim_chip
        (answers (2 ^ 16) calls (λ x. 255))
        (effects (2 ^ 16) calls (λ x. 255))
        (session simulated 3 3 calls device.spi)
unfolding sim_chip gap
new-session_example =
    new-session simulated sim_chip board starts 22 64000000 prescaler 2 3 none cells (omega arith)
      (omega arith) (omega arith) refl 3 3 (omega arith) calls
      (
        (omega arith, omega arith, omega arith),
        ((omega arith, omega arith, omega arith), (omega arith, tt)),
      )
