-- ===== src/Flash/Program/Laws.antt =====
-- What `Device::program` of src/flash.rs does to the memory of the chip, and when it panics.
use embassy_sandbox.Prelude.{ℕ, ◌+◌, ◌-◌, ◌%◌, ◌^◌, ◌≤◌, ◌<◌, ◌≡◌, ◌↔◌, refl, sym, ◌∙◌, arith}
use embassy_sandbox.Prelude.{List, length, take, drop, panic, inl, inr, true}
use embassy_sandbox.Prelude.{length-take, length-drop, drop-eq-nil, Outcome, ◌>>=◌}
use embassy_sandbox.Prelude.{wrapping_sub, le_or_lt, is_power_of_two, ◌==◌, Bool-cases}
use embassy_sandbox.Qspi.{Hal}
use embassy_sandbox.Flash.Align.Laws.{up_value, align_up_lem}
use embassy_sandbox.Flash.Chip.{Chip, Ready}
use embassy_sandbox.Flash.Device.Wait.{Settles, Settles-congr, Settles-bind}
use embassy_sandbox.Flash.Program.{chunks, program_prefix, program_sections, program}
use embassy_sandbox.Flash.Program.{split_at}
use embassy_sandbox.Flash.Program.Span.{
  span_write, span_write-nil, span_write-append, span_write-congr,
}
use embassy_sandbox.Flash.Program.Pages.{
  settled-nil, program_sections-Settles, program_prefix-Settles,
}

-- The bytes from `a` up to the next multiple of 256.
unfoldable pub gap : ℕ → ℕ
gap a = (256 - a % 256) % 256

power_256 : is_power_of_two 256 ≡ true
unfolding is_power_of_two
power_256 = refl

gap_lem : (a : ℕ) → a < 2 ^ 32 → wrapping_sub (up_value a 256).0 a ≡ gap a
unfolding gap
gap_lem a h = elim (Bool-cases (a % 256 == 0)) [
  | inl e ↦ rw e (ground arith)
  | inr e ↦ rw e (ground arith)
]

-- Where the addresses do not end first, the aligned address is `a + gap a`.
up_value-gap : (a : ℕ) → a + gap a < 2 ^ 32 → (up_value a 256).0 ≡ a + gap a
unfolding gap
up_value-gap a h = ground arith

module _ (hal : Hal) (polls : ℕ) (bytes : List ℕ) (a : ℕ) (b : hal.Bus) (range : a < 2 ^ 32) where
  -- What follows the split of the data.
  abbrev split_rest : List ℕ × List ℕ → Outcome hal.Bus
  split_rest (prefix, rest) = program_prefix hal polls prefix a b >>= λ b'.
      program_sections hal polls (chunks rest 256) (up_value a 256).0 b'

  program_split : program hal polls bytes a b ≡ (split_at bytes (gap a) >>= split_rest)
  unfolding program
  program_split = rw (align_up_lem a 256 range power_256, gap_lem a range)

  program_short : length bytes < gap a → program hal polls bytes a b ≡ panic
  program_short h = rw program_split (ground arith)

  program_long :
      gap a ≤ length bytes
      → program hal polls bytes a b ≡ split_rest (take (gap a) bytes, drop (gap a) bytes)
  program_long h = rw program_split (ground arith)

module _ (hal : Hal) (chip : Chip hal) (polls : ℕ) (patient : chip.patience < polls) where
  open hal use {Bus}
  open chip use {mem, capacity}

  module _ (bytes : List ℕ) (a : ℕ) (fits : a + length bytes ≤ capacity)
      (split : gap a ≤ length bytes) where
    sections_part :
        (b : Bus)
        → Ready hal chip b
        → Settles hal chip
            (span_write (drop (gap a) bytes) (a + gap a) (mem b))
            (program_sections hal polls (chunks (drop (gap a) bytes) 256) (up_value a 256).0 b)
    unfolding chunks
    sections_part b ready = elim (le_or_lt (length bytes) (gap a)) [
      | inl short ↦ rw (drop-eq-nil (gap a) bytes short) (
          Settles-congr hal chip
            (λ y.
              span_write-nil (up_value a 256).0 (mem b) y
              ∙ sym (span_write-nil (a + gap a) (mem b) y))
            (settled-nil hal chip polls patient 0 (up_value a 256).0 b ready))
      | inr long ↦
          let left = length-drop (gap a) bytes in
          rw (up_value-gap a (omega (arith, chip.capacity-le))) (
            program_sections-Settles hal chip polls patient (length (drop (gap a) bytes))
              (drop (gap a) bytes) (a + gap a) b ready (unfold gap in omega arith) (omega arith)
              (omega arith))
    ]

    -- On a ready chip that is set to addresses of four bytes, for data inside the memory that
    -- reaches the first page boundary at or above its address, and with more polls than the chip
    -- needs, `program` returns with the chip so; each cell that the data covers keeps exactly the
    -- bits that its byte has set, and all other cells are as before.
    pub program-Settles :
        (b : Bus)
        → a < 2 ^ 32
        → Ready hal chip b
        → Settles hal chip (span_write bytes a (mem b)) (program hal polls bytes a b)
    program-Settles b range ready =
        let prefix = take (gap a) bytes in
        let rest = drop (gap a) bytes in
        let taken = length-take (gap a) bytes in
        rw (program_long hal polls bytes a b range split) (
          Settles-bind hal chip _
            (program_prefix-Settles hal chip polls patient prefix a b ready (omega arith)
              (unfold gap in omega arith))
            λ b' ready' held.
              Settles-congr hal chip
                (λ y.
                  span_write-congr rest (a + gap a) (mem b') (span_write prefix a (mem b)) y
                    (held y)
                  ∙ span_write-append (gap a) bytes a (mem b) y split)
                (sections_part b' ready'))

-- On a ready chip that is set to addresses of four bytes, for data inside the memory and with more
-- polls than the chip needs, `program` panics exactly when the data ends before the first page
-- boundary at or above its address.
pub program-panics_iff :
    (hal : Hal) (chip : Chip hal) (polls : ℕ)
    → chip.patience < polls
    → (bytes : List ℕ) (a : ℕ) → a + length bytes ≤ chip.capacity
    → (b : hal.Bus) → a < 2 ^ 32
    → Ready hal chip b
    → (program hal polls bytes a b ≡ panic) ↔ (length bytes < gap a)
program-panics_iff hal chip polls patient bytes a fits b range ready =
    (forth, program_short hal polls bytes a b range)
  where
    forth : program hal polls bytes a b ≡ panic → length bytes < gap a
    forth panics = elim (le_or_lt (gap a) (length bytes)) [
      | inl split ↦
          let settled = program-Settles hal chip polls patient bytes a fits split b range ready in
          cc (settled.returns)
      | inr short ↦ short
    ]
