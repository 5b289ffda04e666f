-- ===== src/Clocks.antt =====
-- `config` of src/main.rs: the clocks of the board.
pub mod Laws
use embassy_sandbox.Prelude.{ℕ, Bool, true, Option, some, none}

-- embassy's `Pll`; a divider or a multiplier is the number that it stands for.
pub record Pll : Type 0 where
  pub prediv : ℕ
  pub mul : ℕ
  pub divp : Option ℕ
  pub divq : Option ℕ
  pub divr : Option ℕ

pub data PllSource : Type 0 where
  hsi hse : PllSource

pub data Sysclk : Type 0 where
  hsi hse pll1_p : Sysclk

-- The fields of embassy's `rcc::Config` that are set, and all others.
pub record Rcc (Others : Type 0) : Type 0 where
  pub hsi : Bool
  pub pll : Option Pll
  pub pll_src : PllSource
  pub sys : Sysclk
  pub apb1_pre : ℕ
  pub ahb_pre : ℕ
  pub others : Others

module _ {Others Rest : Type 0} where
  -- The arguments are embassy's defaults of the field `rcc` and of the others. The result has the configuration and the frequency of the
  -- AHB in hertz.
  unfoldable pub config : Rcc Others → Rest → (Rcc Others × Rest) × ℕ
  config rcc rest = (
    (
      record {
        hsi = true;
        pll = some (record { prediv = 8; mul = 64; divp = some 2; divq = none; divr = none });
        pll_src = PllSource.hsi;
        sys = Sysclk.pll1_p;
        apb1_pre = 2;
        ahb_pre = 1;
        others = rcc.others;
      },
      rest,
    ),
    64000000,
  )
