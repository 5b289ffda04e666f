-- ===== src/Flash/Contents.antt =====
-- The flash of src/flash.rs as a store: what is erased, programmed and then read.
use embassy_sandbox.Prelude.{ℕ, ◌+◌, ◌-◌, ◌/◌, ◌≤◌, ◌<◌, ◌≡◌, ap, ◌∙◌, arith}
use embassy_sandbox.Prelude.{List, length, get_or, get_or_ext, get_or_default, ones-bit_and}
use embassy_sandbox.Prelude.{Outcome, done, ◌>>=◌}
use embassy_sandbox.Qspi.{Hal}
use embassy_sandbox.Flash.Transfer
use embassy_sandbox.Flash.Chip.{Chip, Ready}
use embassy_sandbox.Flash.Device.{read}
use embassy_sandbox.Flash.Program.{program}
use embassy_sandbox.Flash.Program.Span.{span_write}
use embassy_sandbox.Flash.Program.Laws.{gap, program-Settles}
use embassy_sandbox.Flash.Erase.{erase}
use embassy_sandbox.Flash.Erase.Laws.{sectors_erase, erase-Settles}

abbrev pub IsBytes : List ℕ → Type 0
IsBytes bytes = (i : ℕ) → i < length bytes → get_or bytes i 0 < 256

-- Erase the range of the data, program it, and read it back.
abbrev pub store :
    (hal : Hal) (rounds polls : ℕ) (bytes : List ℕ) (a : ℕ) → hal.Bus → Outcome (List ℕ)
store hal rounds polls bytes a b = do
  erased ← erase hal rounds polls (record { start = a; end = a + length bytes - 1 }) b
  written ← program hal polls bytes a erased
  done (read hal (length bytes) a written).0

cell_stored :
    (bytes : List ℕ) (a i : ℕ) (old : ℕ → ℕ)
    → i < length bytes
    → get_or bytes i 0 < 256
    → old (a + i) ≡ 255
    → span_write bytes a old (a + i) ≡ get_or bytes i 0
unfolding span_write
cell_stored bytes a i old h byte erased =
    let index : a + i - a ≡ i = omega arith in
    ground (
      arith,
      ap (λ (k : ℕ). get_or bytes k 255) index,
      get_or_default bytes i 0 255 h,
      ones-bit_and 8 (get_or bytes i 0) byte,
    )

cell_erased : (a n i : ℕ) (old : ℕ → ℕ) → i < n → sectors_erase a (a + n - 1) old (a + i) ≡ 255
unfolding sectors_erase
cell_erased a n i old h = ground arith

module _ (hal : Hal) (chip : Chip hal) (polls : ℕ) (patient : chip.patience < polls) where
  open hal use {Bus, read_dma}
  open chip use {mem, capacity}

  read-eq :
      (bytes : List ℕ) (a : ℕ) (b : Bus)
      → Ready hal chip b
      → a + length bytes ≤ capacity
      → ((i : ℕ) → i < length bytes → mem b (a + i) ≡ get_or bytes i 0)
      → (read hal (length bytes) a b).0 ≡ bytes
  unfolding read
  read-eq bytes a b ready fits held =
      let same_length = chip.read_length (length bytes) a b in
      get_or_ext 0 (read_dma (length bytes) (Transfer.read hal a) b).0 bytes same_length λ i h.
        let i_lt : i < length bytes = omega (arith, same_length) in
        chip.read_cell (length bytes) a i b ready.0 ready.1 i_lt (omega arith) ∙ held i i_lt

  -- On a ready chip that is set to addresses of four bytes, with enough polls and rounds, at least
  -- one byte, all of them below 256, inside the memory and reaching the first page boundary, are
  -- read back as they were given after their range was erased and they were programmed.
  pub store-round_trip :
      (rounds : ℕ) (bytes : List ℕ) (a : ℕ) (b : Bus)
      → Ready hal chip b
      → 1 ≤ length bytes
      → IsBytes bytes
      → a + length bytes ≤ capacity
      → gap a ≤ length bytes
      → (a + length bytes - 1) / 4096 + 2 ≤ a / 4096 + rounds
      → store hal rounds polls bytes a b ≡ done bytes
  store-round_trip rounds bytes a b ready some_byte is_bytes fits split enough =
      let in_memory = chip.capacity-le in
      let last = a + length bytes - 1 in
      let e =
        erase-Settles hal chip polls patient (record { start = a; end = last }) (omega arith)
          (omega arith) rounds b ready (omega arith) enough in
      let p =
        program-Settles hal chip polls patient bytes a fits split e.bus (omega arith) e.ready in
      rw (e.returns, p.returns)
        (ap done (
          read-eq bytes a p.bus p.ready fits λ i h.
            p.holds (a + i)
            ∙ cell_stored bytes a i (mem e.bus) h (is_bytes i h)
                (e.holds (a + i) ∙ cell_erased a (length bytes) i (mem b) h)))
