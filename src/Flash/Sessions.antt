-- ===== src/Flash/Sessions.antt =====
-- The calls of `Device` of src/flash.rs, one after the other, and a memory that they implement.
use embassy_sandbox.Prelude.{
  ℕ, zero, suc, ◌+◌, ◌/◌, ◌^◌, ◌≤◌, ◌<◌, ◌≡◌, refl, sym, ◌∙◌, ap, arith, ltb, if◌then◌else◌,
}
use embassy_sandbox.Prelude.{List, [], ◌∷◌, length, get_or, get_or_ext, Outcome, done, ◌>>=◌}
use embassy_sandbox.Qspi.{Hal}
use embassy_sandbox.Flash.Transfer
use embassy_sandbox.Flash.Range.{RangeInclusive}
use embassy_sandbox.Flash.Chip.{Chip, Ready}
use embassy_sandbox.Flash.Device.{read, erase_chip}
use embassy_sandbox.Flash.Device.Wait.{Settles, erase_chip-Settles}
use embassy_sandbox.Flash.Program.{program}
use embassy_sandbox.Flash.Program.Span.{span_write}
use embassy_sandbox.Flash.Program.Laws.{gap, program-Settles}
use embassy_sandbox.Flash.Erase.{erase}
use embassy_sandbox.Flash.Erase.Laws.{sectors_erase, erase-Settles}

-- A call of a public method: a read of so many bytes, or one that changes the memory.
pub data Call : Type 0 where
  reads : ℕ → ℕ → Call
  programs : List ℕ → ℕ → Call
  erases : RangeInclusive → Call
  erases_chip : Call

-- The memory is a byte for each address.
abbrev pub Memory : Type 0
Memory = ℕ → ℕ

unfoldable pub cells : ℕ → ℕ → Memory → List ℕ
cells zero a mem = []
cells (suc n) a mem = mem a ∷ cells n (suc a) mem

-- What a call answers, and what it makes of a memory of that many bytes.
abbrev pub answer : Call → Memory → List ℕ
answer (Call.reads n a) mem = cells n a mem
answer (Call.programs bytes a) mem = []
answer (Call.erases range) mem = []
answer Call.erases_chip mem = []

abbrev pub effect : ℕ → Call → Memory → Memory
effect capacity (Call.reads n a) mem = mem
effect capacity (Call.programs bytes a) mem = span_write bytes a mem
effect capacity (Call.erases range) mem = sectors_erase range.start range.end mem
effect capacity Call.erases_chip mem = λ x. if ltb x capacity then 255 else mem x

abbrev pub answers : ℕ → List Call → Memory → List (List ℕ)
answers capacity [] mem = []
answers capacity (c ∷ cs) mem = answer c mem ∷ answers capacity cs (effect capacity c mem)

abbrev pub effects : ℕ → List Call → Memory → Memory
effects capacity [] mem = mem
effects capacity (c ∷ cs) mem = effects capacity cs (effect capacity c mem)

-- Inside the memory. The data of a call of `program` reaches the first page boundary, and the loop of
-- `erase` has a round for each sector and one more.
abbrev pub Allowed : ℕ → ℕ → Call → Type 0
Allowed capacity rounds (Call.reads n a) = a + n ≤ capacity
Allowed capacity rounds (Call.programs bytes a) =
    (a < 2 ^ 32) × (a + length bytes ≤ capacity) × (gap a ≤ length bytes)
Allowed capacity rounds (Call.erases range) =
    (range.start ≤ range.end)
    × (range.end < capacity)
    × (range.end / 4096 + 2 ≤ range.start / 4096 + rounds)
Allowed capacity rounds Call.erases_chip = Unit

abbrev pub AllAllowed : ℕ → ℕ → List Call → Type 0
AllAllowed capacity rounds [] = Unit
AllAllowed capacity rounds (c ∷ cs) = Allowed capacity rounds c × AllAllowed capacity rounds cs

length-cells : (n a : ℕ) (mem : Memory) → length (cells n a mem) ≡ n
unfolding cells
length-cells zero a mem = refl
length-cells (suc n) a mem = ap suc (length-cells n (suc a) mem)

get_or-cells : (n a i : ℕ) (mem : Memory) → i < n → get_or (cells n a mem) i 0 ≡ mem (a + i)
unfolding cells
get_or-cells zero a i mem h = absurd (omega (arith, h))
get_or-cells (suc n) a zero mem h = let same : a ≡ a + 0 = omega arith in ap mem same
get_or-cells (suc n) a (suc i) mem h =
    let e : suc a + i ≡ a + suc i = omega arith in
    get_or-cells n (suc a) i mem (omega (arith, h)) ∙ ap mem e

module _ (hal : Hal) (rounds polls : ℕ) where
  open hal use {Bus}

  -- A call, with what it answers.
  abbrev silent : Bus → Outcome (List ℕ × Bus)
  silent bus = done ([], bus)

  abbrev pub perform : Call → Bus → Outcome (List ℕ × Bus)
  perform (Call.reads n a) bus = done (read hal n a bus)
  perform (Call.programs bytes a) bus = program hal polls bytes a bus >>= silent
  perform (Call.erases range) bus = erase hal rounds polls range bus >>= silent
  perform Call.erases_chip bus = erase_chip hal polls bus >>= silent

  unfoldable pub session : List Call → Bus → Outcome (List (List ℕ) × Bus)
  session [] bus = done ([], bus)
  session (c ∷ cs) bus = do
    (out, bus1) ← perform c bus
    (outs, bus2) ← session cs bus1
    done (out ∷ outs, bus2)

  module _ (chip : Chip hal) where
    open chip use {mem, capacity}

    -- The call returns an answer, with a ready chip, set to addresses of four bytes, and a memory.
    abbrev pub Returns : {A : Type 0} → A → Memory → Outcome (A × Bus) → Type 0
    Returns out memory o =
        (bus : Bus) × (o ≡ done (out, bus)) × Ready hal chip bus × (mem bus ≡ memory)

    settled :
        (memory : Memory) (o : Outcome Bus)
        → Settles hal chip memory o
        → Returns [] memory (o >>= silent)
    settled memory o s = (s.bus, ap (λ o. o >>= silent) s.returns, s.ready, (λ i x. s.holds x i))

    read-Returns :
        (n a : ℕ) (b : Bus)
        → a + n ≤ capacity
        → Ready hal chip b
        → Returns (cells n a (mem b)) (mem b) (done (read hal n a b))
    unfolding read
    read-Returns n a b fits ready =
        let bytes = hal.read_dma n (Transfer.read hal a) b in
        let same_length = chip.read_length n a b in
        let out : bytes.0 ≡ cells n a (mem b) =
          get_or_ext 0 bytes.0 (cells n a (mem b)) (same_length ∙ sym (length-cells n a (mem b)))
            (λ i h.
              let inside : i < n = omega (arith, h, same_length) in
              chip.read_cell n a i b ready.0 ready.1 inside (omega (arith, inside, fits))
              ∙ sym (get_or-cells n a i (mem b) inside)) in
        (
          bytes.1,
          ap (λ xs. done (xs, bytes.1)) out,
          (chip.read_pending n a b ∙ ready.0, chip.read_wide n a b ∙ ready.1),
          (λ i x. chip.read_mem n a x b i),
        )

    module _ (patient : chip.patience < polls) where
      perform-Returns :
          (c : Call) (b : Bus)
          → Allowed capacity rounds c
          → Ready hal chip b
          → Returns (answer c (mem b)) (effect capacity c (mem b)) (perform c b)
      perform-Returns (Call.reads n a) b fits ready = read-Returns n a b fits ready
      perform-Returns (Call.programs bytes a) b (range, fits, split) ready =
          settled _ _ (program-Settles hal chip polls patient bytes a fits split b range ready)
      perform-Returns (Call.erases range) b (order, fits, enough) ready =
          let in_memory = chip.capacity-le in
          settled _ _ (
            erase-Settles hal chip polls patient range fits (omega (arith, in_memory, order, fits))
              rounds b ready order enough)
      perform-Returns Call.erases_chip b allowed ready =
          settled _ _ (erase_chip-Settles hal chip polls b patient ready)

      -- On a ready chip that is set to addresses of four bytes and with enough polls and rounds,
      -- any sequence of calls returns that stay inside the memory, with ranges that are not empty
      -- and data that reaches the first page boundary, with the chip so: the driver answers as the
      -- memory does, and its cells are those of the memory.
      pub session-Returns :
          (cs : List Call) (b : Bus)
          → AllAllowed capacity rounds cs
          → Ready hal chip b
          → Returns (answers capacity cs (mem b)) (effects capacity cs (mem b)) (session cs b)
      unfolding session
      session-Returns [] b allowed ready = (b, refl, ready, refl)
      session-Returns (c ∷ cs) b allowed ready =
          let (b1, e1, ready1, held1) = perform-Returns c b allowed.0 ready in
          let (b2, e2, ready2, held2) = session-Returns cs b1 allowed.1 ready1 in
          (
            b2,
            rw (e1, e2) (ap (λ m. done (answer c (mem b) ∷ answers capacity cs m, b2)) held1),
            ready2,
            held2 ∙ ap (effects capacity cs) held1,
          )
