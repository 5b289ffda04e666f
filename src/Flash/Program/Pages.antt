-- ===== src/Flash/Program/Pages.antt =====
-- The pages that `Device::program` of src/flash.rs writes, one after the other.
use embassy_sandbox.Prelude.{ℕ, zero, suc, ◌+◌, ◌%◌, ◌≤◌, ◌<◌, ◌≡◌, refl, sym, ap, ◌∙◌, arith}
use embassy_sandbox.Prelude.{List, [], ◌∷◌, length, take, drop, done, inl, inr}
use embassy_sandbox.Prelude.{length-take, length-drop, take-eq_self, drop-eq-nil, Outcome, ◌>>=◌}
use embassy_sandbox.Prelude.{overflowing_add, le_or_lt}
use embassy_sandbox.Qspi.{Hal}
use embassy_sandbox.Flash.Mode.{single}
use embassy_sandbox.Flash.Transfer
use embassy_sandbox.Flash.Chip.{Chip, Ready}
use embassy_sandbox.Flash.Device.Wait.{
  Settles, Settles-congr, Settles-bind, wait_write_done-Settles,
}
use embassy_sandbox.Flash.Program.{chunks_from, program_page, program_prefix, program_sections}
use embassy_sandbox.Flash.Program.Span.{
  span_write, span_write-nil, span_write-append, span_write-congr, page_write-eq_span,
}

module _ (hal : Hal) (chip : Chip hal) (polls : ℕ) (patient : chip.patience < polls) where
  open hal use {Bus, command, write_dma}
  open chip use {mem, capacity}

  -- A page that is not left is programmed where it should be.
  pub program_page-Settles :
      (section : List ℕ) (a : ℕ) (b : Bus)
      → Ready hal chip b
      → a < capacity
      → a % 256 + length section ≤ 256
      → Settles hal chip (span_write section a (mem b)) (program_page hal polls section a b)
  unfolding program_page
  program_page-Settles section a b ready inside one_page =
      let b1 = command (Transfer.wren hal single) b in
      let r1 = chip.wren_pending b ready.0 in
      let e1 = chip.wren_enabled b ready.0 in
      let w1 = chip.wren_wide b ∙ ready.1 in
      let busy = chip.pp_pending section a b1 r1 e1 in
      Settles-congr hal chip
        (λ x.
          chip.pp_mem section a b1 x r1 e1 w1 inside (omega arith)
          ∙ page_write-eq_span section a (mem b1) x one_page
          ∙ span_write-congr section a (mem b1) (mem b) x (chip.wren_mem b x ready.0))
        (wait_write_done-Settles hal chip polls 10 (write_dma section (Transfer.pp hal single a) b1)
          (omega arith) (chip.pp_wide section a b1 ∙ w1))

  sections-nil :
      (rounds offset : ℕ) (b : Bus)
      → program_sections hal polls (chunks_from rounds 256 []) offset b ≡ done b
  unfolding program_sections chunks_from
  sections-nil zero offset b = refl
  sections-nil (suc rounds) offset b = refl

  pub settled-nil :
      (rounds offset : ℕ) (b : Bus)
      → Ready hal chip b
      → Settles hal chip
          (span_write [] offset (mem b))
          (program_sections hal polls (chunks_from rounds 256 []) offset b)
  settled-nil rounds offset b ready = record {
    bus = b;
    returns = sections-nil rounds offset b;
    ready = ready;
    holds = λ x. sym (span_write-nil offset (mem b) x);
  }

  -- The rest of the sections, after a page at `offset`.
  abbrev onward : ℕ → List ℕ → ℕ → Bus → Outcome Bus
  onward rounds rest offset b' =
      program_sections hal polls (chunks_from rounds 256 rest) (overflowing_add offset 256).0 b'

  sections-cons :
      (rounds : ℕ) (x : ℕ) (xs : List ℕ) (offset : ℕ) (b : Bus)
      → program_sections hal polls (chunks_from (suc rounds) 256 (x ∷ xs)) offset b ≡ (
          program_page hal polls (take 256 (x ∷ xs)) offset b
          >>= onward rounds (drop 256 (x ∷ xs)) offset)
  unfolding program_sections chunks_from
  sections-cons rounds x xs offset b = refl

  -- The sections of aligned data fill consecutive pages.
  pub program_sections-Settles :
      (rounds : ℕ) (bytes : List ℕ) (offset : ℕ) (b : Bus)
      → Ready hal chip b
      → offset % 256 ≡ 0
      → offset + length bytes ≤ capacity
      → length bytes ≤ rounds
      → Settles hal chip
          (span_write bytes offset (mem b))
          (program_sections hal polls (chunks_from rounds 256 bytes) offset b)
  program_sections-Settles rounds [] offset b ready aligned fits enough =
      settled-nil rounds offset b ready
  program_sections-Settles zero (x ∷ xs) offset b ready aligned fits enough = absurd (omega arith)
  program_sections-Settles (suc rounds) (x ∷ xs) offset b ready aligned fits enough =
      let bytes : List ℕ = x ∷ xs in
      let section = take 256 bytes in
      let rest = drop 256 bytes in
      let page =
        program_page-Settles section offset b ready (omega arith)
          (omega (arith, length-take 256 bytes)) in
      rw (sections-cons rounds x xs offset b) (
        Settles-bind hal chip (onward rounds rest offset) page λ b' ready' held.
          elim (le_or_lt (length bytes) 256) [
            | inl short ↦
                Settles-congr hal chip
                  (λ y.
                    span_write-nil (overflowing_add offset 256).0 (mem b') y
                    ∙ held y
                    ∙ ap (λ s. span_write s offset (mem b) y) (take-eq_self 256 bytes short))
                  (rw (drop-eq-nil 256 bytes short)
                    (settled-nil rounds (overflowing_add offset 256).0 b' ready'))
            | inr long ↦
                let next : (overflowing_add offset 256).0 ≡ offset + 256 =
                  omega (arith, chip.capacity-le) in
                let left = length-drop 256 bytes in
                rw next (
                  Settles-congr hal chip
                    (λ y.
                      span_write-congr rest (offset + 256) (mem b')
                        (span_write section offset (mem b)) y (held y)
                      ∙ span_write-append 256 bytes offset (mem b) y (omega arith))
                    (program_sections-Settles rounds rest (offset + 256) b' ready' (omega arith)
                      (omega arith) (omega arith)))
          ])

  -- The unaligned start, if there is one, lies in one page.
  pub program_prefix-Settles :
      (prefix : List ℕ) (a : ℕ) (b : Bus)
      → Ready hal chip b
      → a + length prefix ≤ capacity
      → a % 256 + length prefix ≤ 256
      → Settles hal chip (span_write prefix a (mem b)) (program_prefix hal polls prefix a b)
  unfolding program_prefix
  program_prefix-Settles [] a b ready fits one_page = record {
    bus = b;
    returns = refl;
    ready = ready;
    holds = λ x. sym (span_write-nil a (mem b) x);
  }
  program_prefix-Settles (x ∷ xs) a b ready fits one_page =
      program_page-Settles (x ∷ xs) a b ready (omega arith) one_page
