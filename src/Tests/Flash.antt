-- ===== src/Tests/Flash.antt =====
-- Runs of the model of src/flash.rs on the simulated chip, and its theorems at concrete inputs.
use embassy_sandbox.Prelude.{
  ℕ, ◌+◌, ◌-◌, ◌^◌, ◌≡◌, refl, Bool, true, false, List, [], ◌∷◌, length, arith,
}
use embassy_sandbox.Prelude.{done, panic, ◌⊎◌, ◌↔◌, ◌≤◌, ◌<◌, ◌%◌, is_power_of_two}
use embassy_sandbox.Flash.Align.{align_up, align_down, is_aligned_to}
use embassy_sandbox.Flash.Align.Laws.{align_up-least, align_down-greatest}
use embassy_sandbox.Flash.Range.{RangeInclusive}
use embassy_sandbox.Flash.Fit.{align_4k, best_fit}
use embassy_sandbox.Flash.Fit.Choice.{best_fit_lem}
use embassy_sandbox.Flash.Simulated.{Cells, simulated, sim_chip}
use embassy_sandbox.Flash.Device.{wait_write_done}
use embassy_sandbox.Flash.Device.Wait.{Settles, wait_write_done-Settles}
use embassy_sandbox.Flash.Program.{program}
use embassy_sandbox.Flash.Program.Span.{span_write}
use embassy_sandbox.Flash.Program.Laws.{gap, program-Settles, program-panics_iff}
use embassy_sandbox.Flash.Erase.{erase}
use embassy_sandbox.Flash.Erase.Laws.{sectors_erase, erase-Settles}
use embassy_sandbox.Flash.Sessions.{Call, Returns, answers, effects, session, session-Returns}
use embassy_sandbox.Flash.Contents.{IsBytes, store, store-round_trip}

abbrev blank : Cells
blank = record { cell = λ x. 0; enabled = false; wide = true; busy = 0 }

abbrev busy_chip : Cells
busy_chip = record blank { busy = 2 }

abbrev three : List ℕ
three = 7 ∷ 8 ∷ 9 ∷ []

abbrev sectors : RangeInclusive
sectors = record { start = 5000; end = 9000 }

power_256 : is_power_of_two 256 ≡ true
unfolding is_power_of_two
power_256 = refl

align_up_runs :
    (align_up 257 256 ≡ done (512, false))
    × (align_up (2 ^ 32 - 1) 256 ≡ done (0, true))
    × (align_up 5 6 ≡ panic)
unfolding align_up is_aligned_to is_power_of_two
align_up_runs = (refl, refl, refl)

align_up-least_example :
    (r : ℕ) × (w : Bool) × (align_up 257 256 ≡ done (r, w))
    × (r % 256 ≡ 0)
    × ((w ≡ false) × (257 ≤ r) × (r < 257 + 256) × (r < 2 ^ 32)
        ⊎ (w ≡ true) × (r ≡ 0) × (2 ^ 32 < 257 + 256))
align_up-least_example = align_up-least 257 256 (omega arith) power_256

align_down-greatest_example :
    (r : ℕ) × (align_down 257 256 ≡ done r)
    × (r % 256 ≡ 0)
    × (r ≤ 257)
    × (257 < r + 256)
    × ((is_aligned_to 257 256 ≡ done true) ↔ (align_up 257 256 ≡ done (r, false)))
align_down-greatest_example = align_down-greatest 257 256 (omega arith) power_256

-- A range of 64 KiB, aligned.
best_fit_lem_example : best_fit 1 (record { start = 0; end = 65535 }) ≡ done align_4k
best_fit_lem_example =
    best_fit_lem 1 (omega arith) (record { start = 0; end = 65535 }) (omega arith)

wait_write_done-Settles_example :
    Settles simulated sim_chip (λ x. 0) (wait_write_done simulated 3 10 busy_chip)
unfolding sim_chip
wait_write_done-Settles_example =
    wait_write_done-Settles simulated sim_chip 3 10 busy_chip (omega arith) refl

program-Settles_example :
    Settles simulated sim_chip (span_write three 510 (λ x. 0)) (program simulated 3 three 510 blank)
unfolding sim_chip gap
program-Settles_example =
    program-Settles simulated sim_chip 3 (omega arith) three 510 (omega arith) (omega arith) blank
      (omega arith) (refl, refl)

program-panics_iff_example : (program simulated 3 three 1 blank ≡ panic) ↔ (length three < gap 1)
unfolding sim_chip
program-panics_iff_example =
    program-panics_iff simulated sim_chip 3 (omega arith) three 1 (omega arith) blank (omega arith)
      (refl, refl)

erase-Settles_example :
    Settles simulated sim_chip
      (sectors_erase 5000 9000 (λ x. 0))
      (erase simulated 3 3 sectors blank)
unfolding sim_chip
erase-Settles_example =
    erase-Settles simulated sim_chip 3 (omega arith) sectors (omega arith) (omega arith) 3 blank
      (refl, refl) (omega arith) (omega arith)

three-IsBytes : IsBytes three
three-IsBytes i h = grind arith

store-round_trip_example : store simulated 2 3 three 510 blank ≡ done three
unfolding sim_chip gap
store-round_trip_example =
    store-round_trip simulated sim_chip 3 (omega arith) 2 three 510 blank (refl, refl) (omega arith)
      three-IsBytes (omega arith) (omega arith) (omega arith)

abbrev calls : List Call
calls = Call.erases sectors ∷ Call.programs three 5118 ∷ Call.reads 3 5118 ∷ Call.erases_chip ∷ []

session-Returns_example :
    Returns simulated 3 3 sim_chip
      (answers (2 ^ 16) calls (λ x. 0))
      (effects (2 ^ 16) calls (λ x. 0))
      (session simulated 3 3 calls blank)
unfolding sim_chip gap
session-Returns_example =
    session-Returns simulated 3 3 sim_chip (omega arith) calls blank
      (
        (omega arith, omega arith, omega arith),
        ((omega arith, omega arith, omega arith), (omega arith, (tt, tt))),
      )
      (refl, refl)
