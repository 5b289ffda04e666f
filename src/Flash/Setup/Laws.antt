-- ===== src/Flash/Setup/Laws.antt =====
-- Which clocks `Device::new` of src/flash.rs accepts.
use embassy_sandbox.Prelude.{
  ℕ, ◌/◌, ◌≤◌, ◌<◌, ◌≡◌, ◌↔◌, ◌⊎◌, inl, inr, refl, arith, Bool-cases, Option, ltb, ◌==◌, done,
  panic, starved, ◌≢◌, Outcome,
}
use embassy_sandbox.Qspi.{Hal}
use embassy_sandbox.Flash.Setup.{
  Board, ExtendedPins, ChipSelectHighTime, cs_high_time_ns, max_freq, high_time, new,
}

high_time-panics_iff : (n : ℕ) → (high_time n ≡ panic) ↔ (8 < n)
unfolding high_time
high_time-panics_iff n = ground arith

high_time-not_starved : (n : ℕ) → high_time n ≢ starved
unfolding high_time
high_time-not_starved n = ground arith

pub high_time-returns : (n : ℕ) → n ≤ 8 → (t : ChipSelectHighTime) × (high_time n ≡ done t)
high_time-returns n h = returned (high_time n) refl
  where
    returned :
        (o : Outcome ChipSelectHighTime)
        → high_time n ≡ o
        → (t : ChipSelectHighTime) × (high_time n ≡ done t)
    returned (done t) e = (t, e)
    returned panic e = absurd (omega (arith, h, (high_time-panics_iff n).0 e))
    returned starved e = absurd (high_time-not_starved n e)

-- If a chip select of 30 ns is at most eight cycles of every clock below 60 MHz, `Device::new` panics
-- exactly when the prescaler is zero or the clock that it gives is not below 60 MHz.
pub new-panics_iff :
    (hal : Hal) (board : Board hal) (size : hal.MemorySize) (ahb_freq prescaler : ℕ)
    (d2 d3 : board.Pin) (extended : Option (ExtendedPins board.Pin)) (bus : hal.Bus)
    → ((freq : ℕ) → freq < max_freq → board.cycles_of cs_high_time_ns freq ≤ 8)
    → (new hal board size ahb_freq prescaler d2 d3 extended bus ≡ panic)
      ↔ ((prescaler ≡ 0) ⊎ (max_freq ≤ ahb_freq / prescaler))
unfolding new
new-panics_iff hal board size ahb_freq prescaler d2 d3 extended bus few =
    let freq = ahb_freq / prescaler in
    elim (Bool-cases (prescaler == 0)) [
      | inl none_left ↦ rw none_left ((λ e. inl (ground arith)), (λ e. refl))
      | inr some_left ↦ rw some_left (elim (Bool-cases (ltb freq max_freq)) [
        | inl slow ↦
            let (t, e) =
              high_time-returns (board.cycles_of cs_high_time_ns freq) (few freq (ground arith)) in
            rw (slow, e) (ground arith)
        | inr fast ↦ rw fast ((λ e. inr (ground arith)), (λ e. refl))
      ])
    ]
