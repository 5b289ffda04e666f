-- ===== src/Clocks/Laws.antt =====
-- The frequencies that `config` of src/main.rs sets, and what the flash driver makes of them.
use embassy_sandbox.Prelude.{
  ℕ, zero, suc, ◌+◌, ◌%◌, ◌*◌, ◌/◌, ◌≤◌, ◌<◌, ◌≡◌, ◌↔◌, ◌⊎◌, refl, inl, inr, arith, Bool, true,
  false, Option, some, none, panic,
}
use native.Mathlib.Nat.{div-add-mod}
use embassy_sandbox.Qspi.{Hal}
use embassy_sandbox.Flash.Setup.{Board, ExtendedPins, cs_high_time_ns, max_freq, new}
use embassy_sandbox.Flash.Setup.Laws.{new-panics_iff}
use embassy_sandbox.Clocks.{Rcc, Pll, PllSource, Sysclk, config}

-- The high-speed internal oscillator of the chip, in hertz.
abbrev hsi_freq : ℕ
hsi_freq = 16000000

-- The clock tree of the chip: an oscillator, the PLL behind it, the system clock and the dividers of
-- the buses. A clock that does not run is `none`; `hse` is the external oscillator.
module _ {Others : Type 0} (hse : Option ℕ) (rcc : Rcc Others) where
  abbrev internal : Bool → Option ℕ
  internal true = some hsi_freq
  internal false = none

  abbrev source : PllSource → Option ℕ
  source PllSource.hsi = internal rcc.hsi
  source PllSource.hse = hse

  abbrev divided : Option ℕ → Option ℕ → Option ℕ
  divided (some freq) (some by) = some (freq / by)
  divided (some freq) none = none
  divided none by = none

  abbrev multiplied : Option ℕ → ℕ → Option ℕ
  multiplied (some freq) by = some (freq * by)
  multiplied none by = none

  abbrev pll_p : Option Pll → Option ℕ
  pll_p (some pll) =
      divided (multiplied (divided (source rcc.pll_src) (some pll.prediv)) pll.mul) pll.divp
  pll_p none = none

  abbrev sysclk : Sysclk → Option ℕ
  sysclk Sysclk.hsi = internal rcc.hsi
  sysclk Sysclk.hse = hse
  sysclk Sysclk.pll1_p = pll_p rcc.pll

  abbrev pub ahb : Option ℕ
  ahb = divided (sysclk rcc.sys) (some rcc.ahb_pre)

  abbrev pub apb1 : Option ℕ
  apb1 = divided ahb (some rcc.apb1_pre)

-- Not faster than that many hertz.
abbrev pub AtMost : ℕ → Option ℕ → Type 0
AtMost limit (some freq) = freq ≤ limit
AtMost limit none = ⊥

-- Whatever the defaults are: the frequency that `config` returns is that of the AHB in the clock tree
-- that it sets up, the APB1 is not faster than 54 MHz, and if a chip select of 30 ns is at most
-- eight cycles of every clock below 60 MHz, `Device::new` at that frequency panics exactly when the
-- prescaler is less than two.
pub config-new-panics_iff :
    {Others Rest : Type 0} (hse : Option ℕ) (rcc : Rcc Others) (rest : Rest) (hal : Hal)
    (board : Board hal) (size : hal.MemorySize) (prescaler : ℕ) (d2 d3 : board.Pin)
    (extended : Option (ExtendedPins board.Pin)) (bus : hal.Bus)
    → ((freq : ℕ) → freq < max_freq → board.cycles_of cs_high_time_ns freq ≤ 8)
    → let (configured, freq) = config rcc rest in
      (ahb hse configured.0 ≡ some freq)
      × AtMost 54000000 (apb1 hse configured.0)
      × ((new hal board size freq prescaler d2 d3 extended bus ≡ panic) ↔ (prescaler < 2))
unfolding config
config-new-panics_iff hse rcc rest hal board size prescaler d2 d3 extended bus few =
    let (to, from) = new-panics_iff hal board size 64000000 prescaler d2 d3 extended bus few in
    (
      refl,
      omega arith,
      (
        (λ e. elim (to e) [
          | inl none_left ↦ omega (arith, none_left)
          | inr fast ↦ slow prescaler fast
        ]),
        (λ small. from (below prescaler small)),
      ),
    )
  where
    slow : (p : ℕ) → max_freq ≤ 64000000 / p → p < 2
    slow zero h = omega arith
    slow (suc zero) h = omega arith
    slow (suc (suc k)) h =
        absurd (twice (64000000 / suc (suc k)) k h (div-add-mod 64000000 (suc (suc k))))
      where
        twice : (q k : ℕ) → max_freq ≤ q → suc (suc k) * q + 64000000 % suc (suc k) ≡ 64000000 → ⊥
        twice q k h e = omega (arith, h, e)

    below : (p : ℕ) → p < 2 → (p ≡ 0) ⊎ (max_freq ≤ 64000000 / p)
    below zero h = inl refl
    below (suc p) h = let one : p ≡ 0 = omega (arith, h) in rw one (inr (omega arith))
