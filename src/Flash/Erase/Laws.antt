-- ===== src/Flash/Erase/Laws.antt =====
-- What `Device::erase` of src/flash.rs does to the memory of the chip, and that it ends.
use embassy_sandbox.Prelude.{ℕ, zero, suc, ◌+◌, ◌*◌, ◌/◌, ◌%◌, ◌^◌, ◌≤◌, ◌<◌, ◌≡◌, refl, ◌∙◌, arith}
use embassy_sandbox.Prelude.{Bool, false, not, ◌&&◌, ◌⊎◌, inl, inr, leb, if◌then◌else◌}
use embassy_sandbox.Prelude.{le_or_lt}
use embassy_sandbox.Qspi.{Hal}
use embassy_sandbox.Flash.Range.{RangeInclusive, contains}
use embassy_sandbox.Flash.Mode.{single}
use embassy_sandbox.Flash.Transfer
use embassy_sandbox.Flash.Chip.{Chip, Ready, sector_erase}
use embassy_sandbox.Flash.Device.{wait_write_done}
use embassy_sandbox.Flash.Device.Wait.{
  Settles, Settles-congr, Settles-bind, wait_write_done-Settles,
}
use embassy_sandbox.Flash.Erase.{erase_from, erase}
use embassy_sandbox.Flash.Erase.Steps.{
  step, step_inside, step_wrapped, sector_begun, erase_from-stops, erase_from-goes,
}

-- All sectors from the one of `first` to the one of `end` are erased.
unfoldable pub sectors_erase : ℕ → ℕ → (ℕ → ℕ) → ℕ → ℕ
sectors_erase first end old x =
    if leb (first / 4096) (x / 4096) && leb (x / 4096) (end / 4096) then 255 else old x

sectors_erase-one :
    (address end : ℕ) (old : ℕ → ℕ) (x : ℕ)
    → address / 4096 ≡ end / 4096
    → sector_erase address old x ≡ sectors_erase address end old x
unfolding sectors_erase
sectors_erase-one address end old x h = ground arith

sectors_erase-more :
    (address end : ℕ) (old new : ℕ → ℕ) (x : ℕ)
    → (address / 4096 + 1) * 4096 ≤ end
    → new x ≡ sector_erase address old x
    → sectors_erase ((address / 4096 + 1) * 4096) end new x ≡ sectors_erase address end old x
unfolding sectors_erase
sectors_erase-more address end old new x h e = ground arith

-- Past the last address nothing is left to erase.
stops_wrapped :
    (range : RangeInclusive) (address : ℕ)
    → address < 2 ^ 32
    → 2 ^ 32 ≤ (address / 4096 + 1) * 4096
    → (address ≡ range.start) ⊎ (address % 4096 ≡ 0)
    → (contains range (step address).0 && not (step address).1) ≡ false
stops_wrapped range address below top first = grind (arith, step_wrapped address below top)

module _ (hal : Hal) (chip : Chip hal) (polls : ℕ) (patient : chip.patience < polls) where
  open hal use {Bus, command}
  open chip use {mem, capacity}

  sector-Settles :
      (address : ℕ) (b : Bus)
      → Ready hal chip b
      → address < capacity
      → Settles hal chip
          (sector_erase address (mem b))
          (wait_write_done hal polls 20000 (sector_begun hal address b))
  sector-Settles address b ready inside =
      let b1 = command (Transfer.wren hal single) b in
      let r1 = chip.wren_pending b ready.0 in
      let e1 = chip.wren_enabled b ready.0 in
      let w1 = chip.wren_wide b ∙ ready.1 in
      let busy = chip.se_pending address b1 r1 e1 in
      Settles-congr hal chip
        (λ x. chip.se_mem address b1 x r1 e1 w1 inside ∙ ground (arith, chip.wren_mem b x ready.0))
        (wait_write_done-Settles hal chip polls 20000 (sector_begun hal address b) (omega arith)
          (chip.se_wide address b1 ∙ w1))

  stopped :
      (range : RangeInclusive) (start_fits : range.start < 2 ^ 32) (rounds address : ℕ)
      (wrapped : Bool) (b : Bus) (cells : ℕ → ℕ)
      → Ready hal chip b
      → ((x : ℕ) → mem b x ≡ cells x)
      → 1 ≤ rounds
      → (contains range address && not wrapped) ≡ false
      → Settles hal chip cells (erase_from hal rounds polls range address wrapped b)
  stopped range fits zero address wrapped b cells ready held some_round out = absurd (omega arith)
  stopped range fits (suc rounds) address wrapped b cells ready held some_round out = record {
    bus = b;
    returns = erase_from-stops hal polls range fits rounds address wrapped b out;
    ready = ready;
    holds = held;
  }

  module _ (range : RangeInclusive) (fits : range.end < capacity)
      (start_fits : range.start < 2 ^ 32) where
    erase_from-Settles :
        (rounds address : ℕ) (b : Bus)
        → Ready hal chip b
        → range.start ≤ address
        → address ≤ range.end
        → (address ≡ range.start) ⊎ (address % 4096 ≡ 0)
        → range.end / 4096 + 2 ≤ address / 4096 + rounds
        → Settles hal chip
            (sectors_erase address range.end (mem b))
            (erase_from hal rounds polls range address false b)
    erase_from-Settles zero address b ready above below first enough = absurd (omega arith)
    erase_from-Settles (suc rounds) address b ready above below first enough =
        let in_memory = chip.capacity-le in
        rw (erase_from-goes hal polls range start_fits rounds address b (ground arith)) (
          Settles-bind hal chip _ (sector-Settles address b ready (omega arith)) λ b' ready' held.
            elim (le_or_lt (2 ^ 32) ((address / 4096 + 1) * 4096)) [
              | inl top ↦
                  stopped range start_fits rounds (step address).0 (step address).1 b' _ ready'
                    (λ x. held x ∙ sectors_erase-one address range.end (mem b) x (omega arith))
                    (omega arith) (stops_wrapped range address (omega arith) top first)
              | inr low ↦
                  rw (step_inside address low)
                    (elim (le_or_lt ((address / 4096 + 1) * 4096) range.end) [
                      | inl more ↦
                          Settles-congr hal chip
                            (λ x.
                              sectors_erase-more address range.end (mem b) (mem b') x more (held x))
                            (erase_from-Settles rounds ((address / 4096 + 1) * 4096) b' ready'
                              (omega arith) more (inr (omega arith)) (omega arith))
                      | inr over ↦
                          stopped range start_fits rounds ((address / 4096 + 1) * 4096) false b' _
                            ready'
                            (λ x.
                              held x ∙ sectors_erase-one address range.end (mem b) x (omega arith))
                            (omega arith) (ground arith)
                    ])
            ])

    -- On a ready chip that is set to addresses of four bytes, for a nonempty range inside the
    -- memory, with more polls than the chip needs and a round for each sector touched and one
    -- more, `erase` ends with the chip so; every cell of every 4-KiB sector that the range touches
    -- reads 255, and all other cells are as before.
    pub erase-Settles :
        (rounds : ℕ) (b : Bus)
        → Ready hal chip b
        → range.start ≤ range.end
        → range.end / 4096 + 2 ≤ range.start / 4096 + rounds
        → Settles hal chip
            (sectors_erase range.start range.end (mem b))
            (erase hal rounds polls range b)
    unfolding erase
    erase-Settles rounds b ready order enough =
        erase_from-Settles rounds range.start b ready (omega arith) order (inl refl) enough
