-- ===== src/Flash/Device/Wait.antt =====
-- `wait_write_done` of src/flash.rs ends on a chip that ends, and leaves the memory alone.
use embassy_sandbox.Prelude.{
  ℕ, zero, suc, ◌<◌, ◌*◌, ◌≡◌, ◌∙◌, ap, arith, ltb, if◌then◌else◌, Bool-cases, inl, inr,
}
use embassy_sandbox.Prelude.{true, false, get_or, Outcome, done, ◌>>=◌}
use embassy_sandbox.Qspi.{Hal}
use embassy_sandbox.Flash.Mode.{single}
use embassy_sandbox.Flash.Flags.{wip}
use embassy_sandbox.Flash.Transfer
use embassy_sandbox.Flash.Chip.{Chip, Ready}
use embassy_sandbox.Flash.Device.{poll, wait_write_done, erase_chip}

module _ (hal : Hal) (chip : Chip hal) where
  open hal use {Bus, command, read_dma, after}
  open chip use {mem, pending, wide}

  -- The run ends with a ready chip that takes addresses of four bytes, whose cells are `cells`.
  pub record Settles (cells : ℕ → ℕ) (run : Outcome Bus) : Type 0 where
    pub bus : Bus
    pub returns : run ≡ done bus
    pub ready : Ready hal chip bus
    pub holds : (x : ℕ) → mem bus x ≡ cells x

  pub Settles-congr :
      {cells cells' : ℕ → ℕ} {run : Outcome Bus}
      → ((x : ℕ) → cells x ≡ cells' x)
      → Settles cells run
      → Settles cells' run
  Settles-congr e s = record {
    bus = s.bus;
    returns = s.returns;
    ready = s.ready;
    holds = λ x. s.holds x ∙ e x;
  }

  -- One run after another.
  pub Settles-bind :
      {cells : ℕ → ℕ} {run : Outcome Bus} (then' : Bus → Outcome Bus) {cells' : ℕ → ℕ}
      → Settles cells run
      → ((b : Bus) → Ready hal chip b → ((x : ℕ) → mem b x ≡ cells x) → Settles cells' (then' b))
      → Settles cells' (run >>= then')
  Settles-bind then' s k = rw s.returns (k s.bus s.ready s.holds)

  abbrev status : ℕ → Bus → ℕ
  status sr b = get_or (read_dma 1 (Transfer.rdsr hal single) b).0 0 sr

  abbrev polled : Bus → Bus
  polled b = (read_dma 1 (Transfer.rdsr hal single) b).1

  poll-busy :
      (polls delay sr : ℕ) (b : Bus)
      → ltb 0 (pending b) ≡ true
      → poll hal (suc polls) delay sr b
        ≡ poll hal polls delay (status sr b) (after delay (polled b))
  unfolding poll
  poll-busy polls delay sr b busy = rw (chip.rdsr_flag sr b, busy)

  poll-idle :
      (polls delay sr : ℕ) (b : Bus)
      → ltb 0 (pending b) ≡ false
      → poll hal (suc polls) delay sr b ≡ done (polled b)
  unfolding poll
  poll-idle polls delay sr b idle = rw (chip.rdsr_flag sr b, idle)

  poll-Settles :
      (polls delay sr : ℕ) (b : Bus)
      → pending b < polls
      → wide b ≡ true
      → Settles (mem b) (poll hal polls delay sr b)
  poll-Settles zero delay sr b h w = absurd (omega arith)
  poll-Settles (suc polls) delay sr b h w = elim (Bool-cases (ltb 0 (pending b))) [
    | inl busy ↦
        let next = after delay (polled b) in
        let fewer : pending next < polls =
          ground (arith, chip.after_pending delay (polled b), chip.rdsr_pending b) in
        let rest =
          poll-Settles polls delay (status sr b) next fewer
            (chip.after_wide delay (polled b) ∙ chip.rdsr_wide b ∙ w) in
        record {
          bus = rest.bus;
          returns = poll-busy polls delay sr b busy ∙ rest.returns;
          ready = rest.ready;
          holds = λ x. rest.holds x ∙ chip.after_mem delay (polled b) x ∙ chip.rdsr_mem b x;
        }
    | inr idle ↦ record {
      bus = polled b;
      returns = poll-idle polls delay sr b idle;
      ready = (ground (arith, chip.rdsr_pending b), chip.rdsr_wide b ∙ w);
      holds = chip.rdsr_mem b;
    }
  ]

  -- If the chip is set to addresses of four bytes and is to be read as busy fewer times than there
  -- are polls, `wait_write_done` ends with the chip ready, still so set and its cells as before.
  pub wait_write_done-Settles :
      (polls delay : ℕ) (b : Bus)
      → pending b < polls
      → wide b ≡ true
      → Settles (mem b) (wait_write_done hal polls delay b)
  wait_write_done-Settles polls delay b h w =
      unfold wait_write_done in poll-Settles polls delay wip b h w

  -- On a ready chip that is set to addresses of four bytes, and with more polls than the chip needs,
  -- `erase_chip` returns with the chip so; every cell below the capacity reads 255, and all others are
  -- as before.
  pub erase_chip-Settles :
      (polls : ℕ) (b : Bus)
      → chip.patience < polls
      → Ready hal chip b
      → Settles (λ x. if ltb x chip.capacity then 255 else mem b x) (erase_chip hal polls b)
  unfolding erase_chip
  erase_chip-Settles polls b patient ready =
      let b1 = command (Transfer.wren hal single) b in
      let r1 = chip.wren_pending b ready.0 in
      let e1 = chip.wren_enabled b ready.0 in
      let busy = chip.ce_pending b1 r1 e1 in
      Settles-congr
        (λ x.
          chip.ce_mem b1 x r1 e1
          ∙ ap (λ c. if ltb x chip.capacity then 255 else c) (chip.wren_mem b x ready.0))
        (wait_write_done-Settles polls (100 * 1000000) (command (Transfer.ce hal single) b1)
          (omega arith) (chip.ce_wide b1 ∙ chip.wren_wide b ∙ ready.1))
