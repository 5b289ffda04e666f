-- ===== src/Flash/Simulated.antt =====
-- A simulated bus and chip: 64 KiB of cells that are any function, and a status that reads busy
-- twice after each program or erase. It shows that the hypotheses of `Chip` can hold together.
use embassy_sandbox.Prelude.{ℕ, zero, suc, ◌+◌, ◌-◌, ◌%◌, ◌^◌, ◌≤◌, ◌<◌, ◌≡◌, refl, arith, bit_and}
use embassy_sandbox.Prelude.{
  Bool, true, false, ltb, ◌==◌, if◌then◌else◌, none, some, ap, Bool-cases, inl, inr,
}
use native.Mathlib.Nat.{le_refl}
use embassy_sandbox.Prelude.{List, [], ◌∷◌, length, get_or}
use embassy_sandbox.Qspi.{QspiWidth, TransferConfig, Hal}
use embassy_sandbox.Flash.Mode.{single}
use embassy_sandbox.Flash.Flags.{wip}
use embassy_sandbox.Flash.Instruction
use embassy_sandbox.Flash.Transfer
use embassy_sandbox.Flash.Chip.{Chip, page_write, sector_erase}

pub record Cells : Type 0 where
  pub cell : ℕ → ℕ
  pub enabled : Bool
  pub wide : Bool
  pub busy : ℕ

abbrev Config : Type 0
Config = TransferConfig ℕ

abbrev target : Config → ℕ
target config = elim config.address [ none ↦ 0 | some a ↦ a ]

-- A write starts if it is enabled, and clears the enabling.
abbrev start_write : (ℕ → ℕ) → Cells → Cells
start_write new b = if b.enabled then record b { cell = new; enabled = false; busy = 2 } else b

abbrev sim_command : Config → Cells → Cells
sim_command config b =
    if config.instruction == Instruction.wren
    then record b { enabled = true }
    else if config.instruction == Instruction.se
    then start_write (sector_erase (target config) b.cell) b
    else if config.instruction == Instruction.ce
    then start_write (λ x. if ltb x (2 ^ 16) then 255 else b.cell x) b
    else if config.instruction == Instruction.en4b
    then record b { wide = true }
    else if config.instruction == Instruction.rst
    then record b { enabled = false; wide = false; busy = 0 }
    else b

abbrev sim_write : List ℕ → Config → Cells → Cells
sim_write bytes config b =
    if config.instruction == Instruction.pp
    then start_write (page_write bytes (target config) b.cell) b
    else b

unfoldable pub cells_from : ℕ → ℕ → (ℕ → ℕ) → List ℕ
cells_from zero a cell = []
cells_from (suc n) a cell = cell (a % 2 ^ 16) ∷ cells_from n (a + 1) cell

abbrev sim_read : ℕ → Config → Cells → List ℕ × Cells
sim_read n config b =
    if config.instruction == Instruction.rdsr
    then ((if ltb 0 b.busy then wip else 0) ∷ [], record b { busy = b.busy - 1 })
    else (cells_from n (target config) b.cell, b)

abbrev pub simulated : Hal
simulated = record {
  DummyCycles = ℕ;
  dummy_2 = 2;
  dummy_8 = 8;
  cycles = λ d. d;
  default_config = record {
    instruction = 0;
    address = none;
    dummy = 0;
    iwidth = QspiWidth.none;
    awidth = QspiWidth.none;
    dwidth = QspiWidth.none;
  };
  MemorySize = ℕ;
  size_code = λ code. code;
  flags_contain = λ flags other. bit_and flags other == other;
  Bus = Cells;
  command = sim_command;
  read_dma = sim_read;
  write_dma = sim_write;
  after = λ t b. b;
}

pub capacity_fits : 2 ^ 16 ≤ 2 ^ 32
capacity_fits = omega arith

length-cells_from : (n a : ℕ) (cell : ℕ → ℕ) → length (cells_from n a cell) ≡ n
unfolding cells_from
length-cells_from zero a cell = refl
length-cells_from (suc n) a cell = ap suc (length-cells_from n (a + 1) cell)

get_or-cells_from :
    (n a i : ℕ) (cell : ℕ → ℕ)
    → i < n
    → a + i < 2 ^ 16
    → get_or (cells_from n a cell) i 0 ≡ cell (a + i)
unfolding cells_from
get_or-cells_from zero a i cell h k = absurd (omega arith)
get_or-cells_from (suc n) a zero cell h k = ap cell (omega arith)
get_or-cells_from (suc n) a (suc i) cell h k =
    let e : a + suc i ≡ a + 1 + i = omega arith in
    rw e (get_or-cells_from n (a + 1) i cell (omega arith) (omega arith))

pub rdsr_flag :
    (sr : ℕ) (b : Cells)
    → (bit_and (get_or (sim_read 1 (Transfer.rdsr simulated single) b).0 0 sr) wip == wip)
      ≡ ltb 0 b.busy
unfolding Transfer.rdsr
rdsr_flag sr b = elim (Bool-cases (ltb 0 b.busy)) [ inl e ↦ rw e | inr e ↦ rw e ]

module _ (b : Cells) (ready : b.busy ≡ 0) (enabled : b.enabled ≡ true) where
  pub pp_pending :
      (bytes : List ℕ) (a : ℕ) → (sim_write bytes (Transfer.pp simulated single a) b).busy ≤ 2
  unfolding Transfer.pp
  pp_pending bytes a = rw enabled (omega arith)

  pub pp_mem :
      (bytes : List ℕ) (a x : ℕ)
      → (sim_write bytes (Transfer.pp simulated single a) b).cell x ≡ page_write bytes a b.cell x
  unfolding Transfer.pp
  pp_mem bytes a x = rw enabled

  pub se_pending : (a : ℕ) → (sim_command (Transfer.se simulated single a) b).busy ≤ 2
  unfolding Transfer.se
  se_pending a = rw enabled (omega arith)

  pub se_mem :
      (a x : ℕ) → (sim_command (Transfer.se simulated single a) b).cell x ≡ sector_erase a b.cell x
  unfolding Transfer.se
  se_mem a x = rw enabled

  pub ce_pending : (sim_command (Transfer.ce simulated single) b).busy ≤ 2
  unfolding Transfer.ce
  ce_pending = rw enabled (omega arith)

  pub ce_mem :
      (x : ℕ)
      → (sim_command (Transfer.ce simulated single) b).cell x
        ≡ (if ltb x (2 ^ 16) then 255 else b.cell x)
  unfolding Transfer.ce
  ce_mem x = rw enabled

pub length-read : (n a : ℕ) (b : Cells) → length (sim_read n (Transfer.read simulated a) b).0 ≡ n
unfolding Transfer.read
length-read n a b = length-cells_from n a b.cell

pub read_cell :
    (n a i : ℕ) (b : Cells)
    → i < n
    → a + i < 2 ^ 16
    → get_or (sim_read n (Transfer.read simulated a) b).0 i 0 ≡ b.cell (a + i)
unfolding Transfer.read
read_cell n a i b h k = get_or-cells_from n a i b.cell h k

start_write-wide : (new : ℕ → ℕ) (b : Cells) → (start_write new b).wide ≡ b.wide
start_write-wide new b = ground arith

pub pp_wide :
    (bytes : List ℕ) (a : ℕ) (b : Cells)
    → (sim_write bytes (Transfer.pp simulated single a) b).wide ≡ b.wide
unfolding Transfer.pp
pp_wide bytes a b = start_write-wide (page_write bytes a b.cell) b

pub se_wide : (a : ℕ) (b : Cells) → (sim_command (Transfer.se simulated single a) b).wide ≡ b.wide
unfolding Transfer.se
se_wide a b = start_write-wide (sector_erase a b.cell) b

pub ce_wide : (b : Cells) → (sim_command (Transfer.ce simulated single) b).wide ≡ b.wide
unfolding Transfer.ce
ce_wide b = start_write-wide (λ x. if ltb x (2 ^ 16) then 255 else b.cell x) b

unfoldable pub sim_chip : Chip simulated
unfolding Transfer.rdsr Transfer.wren Transfer.read
sim_chip = record {
  capacity = 2 ^ 16;
  capacity-le = capacity_fits;
  mem = λ b. b.cell;
  enabled = λ b. b.enabled;
  wide = λ b. b.wide;
  pending = λ b. b.busy;
  patience = 2;
  rdsr_flag = rdsr_flag;
  rdsr_pending = λ b. refl;
  rdsr_mem = λ b x. refl;
  rdsr_wide = λ b. refl;
  after_pending = λ t b. le_refl b.busy;
  after_mem = λ t b x. refl;
  after_wide = λ t b. refl;
  wren_enabled = λ b h. refl;
  wren_pending = λ b h. h;
  wren_mem = λ b x h. refl;
  wren_wide = λ b. refl;
  pp_pending = λ bytes a b r e. pp_pending b r e bytes a;
  pp_mem = λ bytes a b x r e w inside short. pp_mem b r e bytes a x;
  pp_wide = pp_wide;
  se_pending = λ a b r e. se_pending b r e a;
  se_mem = λ a b x r e w inside. se_mem b r e a x;
  se_wide = se_wide;
  ce_pending = λ b r e. ce_pending b r e;
  ce_mem = λ b x r e. ce_mem b r e x;
  ce_wide = ce_wide;
  read_length = length-read;
  read_cell = λ n a i b r w h k. read_cell n a i b h k;
  read_pending = λ n a b. refl;
  read_mem = λ n a x b. refl;
  read_wide = λ n a b. refl;
}
