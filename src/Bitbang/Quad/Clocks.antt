-- ===== src/Bitbang/Quad/Clocks.antt =====
-- How many clock edges the transfers of `QuadSpi` in src/bitbang.rs make.
use Prim.Native.Nat.{max}
use embassy_sandbox.Prelude.{
  ℕ, zero, suc, ◌+◌, ◌-◌, ◌*◌, ◌≡◌, refl, ◌∙◌, ap, arith, Option, none, some,
}
use embassy_sandbox.Prelude.{Bool, true, false, List, [], ◌∷◌, length}
use embassy_sandbox.Bitbang.Wire.{Level, Event, History, M, emit, when}
use embassy_sandbox.Bitbang.Types.{is_0, is_1}
use embassy_sandbox.Bitbang.Config.{Mode, QuadTransfer, address_bytes, first_byte}
use embassy_sandbox.Bitbang.Config.Laws.{length-address_bytes}
use embassy_sandbox.Qspi.{AddressSize}
use embassy_sandbox.Bitbang.Quad.Bytes.{
  Pin, sck, ncs, QuadSpi, single_mode, quad_read_mode, quad_write_mode,
}
use embassy_sandbox.Bitbang.Quad.Bytes.{single_bit, single_bits, single_transmit_byte_, dummy_cycle}
use embassy_sandbox.Bitbang.Quad.Bytes.{write_half, quad_write_byte_, read_half, quad_read_byte_}
use embassy_sandbox.Bitbang.Quad.Transfers.{Direction, single_transmit_, quad_read_, quad_write_}
use embassy_sandbox.Bitbang.Quad.Transfers.{transfer_, framed, instruction_phase, address_phase}
use embassy_sandbox.Bitbang.Quad.Transfers.{dummy_phase, data_phase, quad_transfer}
use embassy_sandbox.Bitbang.Quad.Transfers.{single_read_, single_write_}

-- The edges of the clock in a history.
abbrev pub edges : History Pin → ℕ
edges [] = 0
edges (Event.toggle sck ∷ h) = suc (edges h)
edges (_ ∷ h) = edges h

abbrev Makes : {A : Type 0} → M Pin A → ℕ → Type 0
Makes m n = (h : History Pin) → edges (m h).1 ≡ edges h + n

-- The clock cycles of a byte.
abbrev pub byte_cycles : Mode → ℕ
byte_cycles Mode.single = 8
byte_cycles Mode.quad = 2

abbrev pub buffer_length : Direction → ℕ
buffer_length (Direction.read rx) = length rx
buffer_length (Direction.write tx) = length tx

module _ (sense : Pin → History Pin → Level) (spi : QuadSpi) where
  single_bit-Makes : (tx pos rx : ℕ) → Makes (single_bit sense spi tx pos rx) 2
  unfolding single_bit
  single_bit-Makes tx pos rx h = ground arith

  single_bits-Makes : (n tx rx : ℕ) → Makes (single_bits sense spi n tx rx) (2 * n)
  unfolding single_bits
  single_bits-Makes zero tx rx h = omega arith
  single_bits-Makes (suc n) tx rx h = omega (
    arith,
    single_bit-Makes tx n rx h,
    single_bits-Makes n tx (single_bit sense spi tx n rx h).0 (single_bit sense spi tx n rx h).1,
  )

  single_byte-Makes : (tx : ℕ) → Makes (single_transmit_byte_ sense spi tx) 16
  unfolding single_transmit_byte_
  single_byte-Makes tx h = single_bits-Makes 8 tx 0 h

  dummy_cycle-Makes : Makes (dummy_cycle sense spi) 2
  unfolding dummy_cycle
  dummy_cycle-Makes h = ground arith

  write_half-Makes : (half tx : ℕ) → Makes (write_half sense spi half tx) 2
  unfolding write_half
  write_half-Makes half tx h = ground arith

  read_half-Makes : (half rx : ℕ) → Makes (read_half sense spi half rx) 2
  unfolding read_half
  read_half-Makes half rx h = ground arith

  write_byte-Makes : (tx : ℕ) → Makes (quad_write_byte_ sense spi tx) 4
  unfolding quad_write_byte_
  write_byte-Makes tx h =
      omega (arith, write_half-Makes 1 tx h, write_half-Makes 0 tx (write_half sense spi 1 tx h).1)

  read_byte-Makes : Makes (quad_read_byte_ sense spi) 4
  unfolding quad_read_byte_
  read_byte-Makes h =
      let first = read_half sense spi 1 0 h in
      omega (arith, read_half-Makes 1 0 h, read_half-Makes 0 first.0 first.1)

  single_transmit_-Makes :
      (tx rx : List ℕ) → Makes (single_transmit_ sense spi tx rx) (16 * max (length tx) (length rx))
  unfolding single_transmit_
  single_transmit_-Makes [] [] h = omega arith
  single_transmit_-Makes [] (r ∷ rx) h = omega (
    arith,
    single_byte-Makes 0 h,
    single_transmit_-Makes [] rx (single_transmit_byte_ sense spi 0 h).1,
  )
  single_transmit_-Makes (t ∷ tx) [] h = omega (
    arith,
    single_byte-Makes t h,
    single_transmit_-Makes tx [] (single_transmit_byte_ sense spi t h).1,
  )
  single_transmit_-Makes (t ∷ tx) (r ∷ rx) h = omega (
    arith,
    single_byte-Makes t h,
    single_transmit_-Makes tx rx (single_transmit_byte_ sense spi t h).1,
  )

  quad_read_-Makes : (rx : List ℕ) → Makes (quad_read_ sense spi rx) (4 * length rx)
  unfolding quad_read_
  quad_read_-Makes [] h = omega arith
  quad_read_-Makes (r ∷ rx) h =
      omega (arith, read_byte-Makes h, quad_read_-Makes rx (quad_read_byte_ sense spi h).1)

  quad_write_-Makes : (tx : List ℕ) → Makes (quad_write_ sense spi tx) (4 * length tx)
  unfolding quad_write_
  quad_write_-Makes [] h = omega arith
  quad_write_-Makes (t ∷ tx) h =
      omega (arith, write_byte-Makes t h, quad_write_-Makes tx (quad_write_byte_ sense spi t h).1)

  transfer_-Makes :
      (direction : Direction) (mode : Mode)
      → Makes
          (transfer_ sense spi direction mode)
          (2 * (byte_cycles mode * buffer_length direction))
  unfolding transfer_ single_read_ single_write_ single_mode quad_read_mode quad_write_mode
  transfer_-Makes (Direction.read rx) Mode.single h =
      omega (arith, single_transmit_-Makes [] rx (single_mode h).1)
  transfer_-Makes (Direction.write tx) Mode.single h =
      omega (arith, single_transmit_-Makes tx [] (single_mode h).1)
  transfer_-Makes (Direction.read rx) Mode.quad h =
      omega (arith, quad_read_-Makes rx (quad_read_mode h).1)
  transfer_-Makes (Direction.write tx) Mode.quad h =
      omega (arith, quad_write_-Makes tx (quad_write_mode h).1)

  when-Makes :
      (b : Bool) (t : ℕ) (h : History Pin) → edges (when b (emit (Event.block_for t)) h).1 ≡ edges h
  when-Makes true t h = refl
  when-Makes false t h = refl

  -- The history when the phases begin.
  abbrev pub opened : History Pin → History Pin
  opened h =
      (when (is_1 spi.cpha) (emit (Event.block_for spi.min_sck_half_cycle))
        (Event.set_level ncs false ∷ (single_mode h).1)).1

  framed-Makes : (body : M Pin (List ℕ)) (n : ℕ) → Makes body n → Makes (framed sense spi body) n
  unfolding framed single_mode
  framed-Makes body n makes h = omega (
    arith,
    when-Makes (is_1 spi.cpha) spi.min_sck_half_cycle
        (Event.set_level ncs false ∷ (single_mode h).1),
    makes (opened h),
    when-Makes (is_0 spi.cpha) spi.min_sck_half_cycle (body (opened h)).1,
  )

  -- The clock cycles of each phase.
  abbrev pub instruction_cycles : Option (ℕ × Mode) → ℕ
  instruction_cycles none = 0
  instruction_cycles (some (instruction, mode)) = byte_cycles mode

  abbrev pub address_cycles : Option (ℕ × Mode × AddressSize) → ℕ
  address_cycles none = 0
  address_cycles (some (address, mode, size)) = byte_cycles mode * (4 - first_byte size)

  abbrev pub data_cycles : Direction → Option Mode → ℕ
  data_cycles direction none = 0
  data_cycles direction (some mode) = byte_cycles mode * buffer_length direction

  instruction_phase-Makes :
      (i : Option (ℕ × Mode)) → Makes (instruction_phase sense spi i) (2 * instruction_cycles i)
  unfolding instruction_phase
  instruction_phase-Makes none h = omega arith
  instruction_phase-Makes (some (instruction, mode)) h =
      omega (arith, transfer_-Makes (Direction.write (instruction ∷ [])) mode h)

  address_phase-Makes :
      (a : Option (ℕ × Mode × AddressSize))
      → Makes (address_phase sense spi a) (2 * address_cycles a)
  unfolding address_phase
  address_phase-Makes none h = omega arith
  address_phase-Makes (some (address, mode, size)) h =
      let sent = transfer_-Makes (Direction.write (address_bytes address size)) mode h in
      sent ∙ ap (λ n. edges h + 2 * (byte_cycles mode * n)) (length-address_bytes address size)

  dummy_phase-Makes : (n : ℕ) → Makes (dummy_phase sense spi n) (2 * n)
  unfolding dummy_phase
  dummy_phase-Makes zero h = omega arith
  dummy_phase-Makes (suc n) h =
      omega (arith, dummy_cycle-Makes h, dummy_phase-Makes n (dummy_cycle sense spi h).1)

  data_phase-Makes :
      (direction : Direction) (mode : Option Mode)
      → Makes (data_phase sense spi direction mode) (2 * data_cycles direction mode)
  unfolding data_phase
  data_phase-Makes (Direction.read rx) none h = omega arith
  data_phase-Makes (Direction.write tx) none h = omega arith
  data_phase-Makes (Direction.read rx) (some mode) h = transfer_-Makes (Direction.read rx) mode h
  data_phase-Makes (Direction.write tx) (some mode) h = transfer_-Makes (Direction.write tx) mode h

  opened-edges : (h : History Pin) → edges (opened h) ≡ edges h
  unfolding single_mode
  opened-edges h =
      when-Makes (is_1 spi.cpha) spi.min_sck_half_cycle
        (Event.set_level ncs false ∷ (single_mode h).1)

  -- The history when the data begin, and the cycles until then.
  abbrev pub before_data : QuadTransfer → History Pin → History Pin
  before_data t h =
      let h1 = (instruction_phase sense spi t.instruction h).1 in
      let h2 = (address_phase sense spi t.address h1).1 in
      (dummy_phase sense spi t.dummy_cycles h2).1

  abbrev pub cycles_before_data : QuadTransfer → ℕ
  cycles_before_data t =
      instruction_cycles t.instruction + address_cycles t.address + t.dummy_cycles

  before_data-edges :
      (t : QuadTransfer) (h : History Pin)
      → edges (before_data t h) ≡ edges h + 2 * cycles_before_data t
  before_data-edges t h =
      let h1 = (instruction_phase sense spi t.instruction h).1 in
      let h2 = (address_phase sense spi t.address h1).1 in
      omega (
        arith,
        instruction_phase-Makes t.instruction h,
        address_phase-Makes t.address h1,
        dummy_phase-Makes t.dummy_cycles h2,
      )

  pub data-edges :
      (t : QuadTransfer) (h : History Pin)
      → edges (before_data t (opened h)) ≡ edges h + 2 * cycles_before_data t
  data-edges t h = omega (arith, before_data-edges t (opened h), opened-edges h)

  -- The clock edges before a `quad_transfer` and after it differ by two for every cycle of its
  -- phases: eight cycles for a byte on one line, two for a byte on four, and the dummy cycles.
  pub quad_transfer-clocks :
      (direction : Direction) (t : QuadTransfer) (h : History Pin)
      → edges (quad_transfer sense spi direction t h).1
        ≡ edges h + 2 * (cycles_before_data t + data_cycles direction t.bytes)
  unfolding quad_transfer
  quad_transfer-clocks direction t h =
      framed-Makes _ _
        (λ h'.
          omega
            (arith, before_data-edges t h', data_phase-Makes direction t.bytes (before_data t h')))
        h
