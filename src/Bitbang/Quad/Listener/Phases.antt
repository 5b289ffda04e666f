-- ===== src/Bitbang/Quad/Listener/Phases.antt =====
-- What a selected device reads in the phases of a transfer of `QuadSpi` in src/bitbang.rs.
use embassy_sandbox.Prelude.{ℕ, zero, suc, ◌*◌, ◌-◌, ◌%◌, ◌^◌, ◌≡◌, Option, none, some}
use embassy_sandbox.Prelude.{List, [], ◌∷◌, ◌++◌, length, drop, refl, ◌∙◌, ap, sym, arith}
use embassy_sandbox.Prelude.{drop-append}
use mathlib.Core.List.{append-nil, append_assoc}
use embassy_sandbox.Bitbang.Wire.{Level, History, M, ◌>>=◌, ◌>>◌}
use embassy_sandbox.Bitbang.Config.{Mode, QuadTransfer, first_byte, address_bytes}
use embassy_sandbox.Bitbang.Config.Laws.{be_value, length-address_bytes}
use embassy_sandbox.Qspi.{AddressSize}
use embassy_sandbox.Bitbang.Quad.Bytes.{
  Pin, QuadSpi, single_mode, quad_write_mode, single_transmit_byte_, quad_write_byte_, dummy_cycle,
}
use embassy_sandbox.Bitbang.Quad.Transfers.{
  Direction, single_transmit_, single_write_, quad_write_, transfer_, instruction_phase,
  address_phase, dummy_phase, data_phase,
}
use embassy_sandbox.Bitbang.Quad.Listener.{
  Listener, Layout, heard, Reader, byte, bytes, read_instruction, read_address, read_contents,
  decode, layout, command, octets, instruction_mode, address_layout, instruction_sent, address_sent,
  contents_sent,
}
use embassy_sandbox.Bitbang.Quad.Listener.Takes.{
  Reads, Takes, takes_both, takes_nothing, takes_as, dummy_cycle-Takes, quad_write_byte_-Takes,
  single_transmit_byte_-Takes,
}

-- The bytes of an address are read as the address, reduced to its size.
be_value-address_bytes :
    (address : ℕ) (size : AddressSize)
    → be_value 0 (octets (address_bytes address size)) ≡ address % 2 ^ (8 * (4 - first_byte size))
unfolding address_bytes
be_value-address_bytes address AddressSize._8bit = omega arith
be_value-address_bytes address AddressSize._16bit = omega arith
be_value-address_bytes address AddressSize._24bit = omega arith
be_value-address_bytes address AddressSize._32bit = omega arith

-- One reader after another.
reads_then :
    {X Y Z : Type 0} (both : X → Y → Z) (first : Reader X) (x : X) (second : Reader Y) (y : Y)
    (a b : List ℕ)
    → Reads first x a
    → Reads second y b
    → Reads
        (λ ns. let (u, after) = first ns in let (v, rest) = second after in (both u v, rest))
        (both x y)
        (a ++ b)
reads_then both first x second y a b reads_a reads_b rest =
    rw (append_assoc a b rest, reads_a (b ++ rest), reads_b rest) refl

-- The readers of what comes after the address, and after the instruction.
abbrev read_after_address : Layout → Reader (List ℕ)
read_after_address l ns = read_contents l.contents l.length (drop l.dummy_cycles ns)

abbrev read_after_instruction : Layout → Reader (Option ℕ × List ℕ)
read_after_instruction l ns =
    let (u, after) = read_address l.address ns in
    let (v, rest) = read_after_address l after in ((u, v), rest)

module _ (sense : Pin → History Pin → Level) (spi : QuadSpi) (p : Listener) where
  open spi use {cpha}

  single_mode-Takes : Takes sense spi p single_mode (λ new. new ≡ [])
  unfolding single_mode
  single_mode-Takes h w = (w, refl, [], sym (append-nil (heard cpha p h).current), refl)

  quad_write_mode-Takes : Takes sense spi p quad_write_mode (λ new. new ≡ [])
  unfolding quad_write_mode
  quad_write_mode-Takes h w = (w, refl, [], sym (append-nil (heard cpha p h).current), refl)

  reads_more :
      (mode : Mode) (n b : ℕ) (bs a c : List ℕ)
      → Reads (byte mode) b a
      → Reads (bytes mode n) bs c
      → Reads (bytes mode (suc n)) (b ∷ bs) (a ++ c)
  unfolding bytes
  reads_more mode n b bs a c first others rest =
      rw (append_assoc a c rest, first (c ++ rest), others rest) refl

  single_write_-Takes :
      (tx : List ℕ)
      → Takes sense spi p
          (single_transmit_ sense spi tx [])
          (Reads (bytes Mode.single (length tx)) (octets tx))
  unfolding single_transmit_ bytes byte
  single_write_-Takes [] = takes_nothing sense spi p {A = List ℕ} [] (λ rest. refl)
  single_write_-Takes (t ∷ tx) =
      takes_both sense spi p (single_transmit_byte_ sense spi t)
        (λ x. single_transmit_ sense spi tx [])
        (reads_more Mode.single (length tx) (t % 2 ^ 8) (octets tx))
        (single_transmit_byte_-Takes sense spi p t) (λ x. single_write_-Takes tx)

  quad_write_-Takes :
      (tx : List ℕ)
      → Takes sense spi p
          (quad_write_ sense spi tx)
          (Reads (bytes Mode.quad (length tx)) (octets tx))
  unfolding quad_write_ bytes byte
  quad_write_-Takes [] = takes_nothing sense spi p {A = List ℕ} [] (λ rest. refl)
  quad_write_-Takes (t ∷ tx) =
      takes_both sense spi p (quad_write_byte_ sense spi t) (λ x. quad_write_ sense spi tx)
        (reads_more Mode.quad (length tx) (t % 2 ^ 8) (octets tx))
        (quad_write_byte_-Takes sense spi p t) (λ x. quad_write_-Takes tx)

  transfer_-Takes :
      (tx : List ℕ) (mode : Mode)
      → Takes sense spi p
          (transfer_ sense spi (Direction.write tx) mode)
          (Reads (bytes mode (length tx)) (octets tx))
  unfolding transfer_ single_write_
  transfer_-Takes tx Mode.single =
      takes_both sense spi p single_mode (λ x. single_transmit_ sense spi tx [])
        (λ a c nothing reads. rw nothing reads) single_mode-Takes (λ x. single_write_-Takes tx)
  transfer_-Takes tx Mode.quad =
      takes_both sense spi p quad_write_mode (λ x. quad_write_ sense spi tx)
        (λ a c nothing reads. rw nothing reads) quad_write_mode-Takes (λ x. quad_write_-Takes tx)

  instruction_phase-Takes :
      (i : Option (ℕ × Mode))
      → Takes sense spi p
          (instruction_phase sense spi i)
          (Reads (read_instruction (instruction_mode i)) (instruction_sent i))
  unfolding instruction_phase read_instruction bytes
  instruction_phase-Takes none = takes_nothing sense spi p {A = List ℕ} [] (λ rest. refl)
  instruction_phase-Takes (some (instruction, mode)) =
      takes_as sense spi p (transfer_ sense spi (Direction.write (instruction ∷ [])) mode)
        (λ a reads rest. let e = reads rest in cc) (transfer_-Takes (instruction ∷ []) mode)

  address_phase-Takes :
      (a : Option (ℕ × Mode × AddressSize))
      → Takes sense spi p
          (address_phase sense spi a)
          (Reads (read_address (address_layout a)) (address_sent a))
  unfolding address_phase read_address
  address_phase-Takes none = takes_nothing sense spi p {A = List ℕ} [] (λ rest. refl)
  address_phase-Takes (some (address, mode, size)) =
      takes_as sense spi p (transfer_ sense spi (Direction.write (address_bytes address size)) mode)
        (λ a reads rest.
          let e : bytes mode (4 - first_byte size) (a ++ rest)
              ≡ (octets (address_bytes address size), rest) =
            ap (λ n. bytes mode n (a ++ rest)) (sym (length-address_bytes address size))
            ∙ reads rest in
          rw (e, be_value-address_bytes address size) refl)
        (transfer_-Takes (address_bytes address size) mode)

  dummy_phase-Takes : (n : ℕ) → Takes sense spi p (dummy_phase sense spi n) (λ new. length new ≡ n)
  unfolding dummy_phase
  dummy_phase-Takes zero = takes_nothing sense spi p {A = Unit {0}} tt refl
  dummy_phase-Takes (suc n) =
      takes_both sense spi p (dummy_cycle sense spi) (λ x. dummy_phase sense spi n)
        (λ a b (v, e, u) long. rw e (ap suc long)) (dummy_cycle-Takes sense spi p)
        (λ x. dummy_phase-Takes n)

  data_phase-Takes :
      (tx : List ℕ) (mode : Option Mode)
      → Takes sense spi p
          (data_phase sense spi (Direction.write tx) mode)
          (Reads (read_contents mode (length tx)) (contents_sent mode tx))
  unfolding data_phase read_contents
  data_phase-Takes tx none = takes_nothing sense spi p {A = List ℕ} [] (λ rest. refl)
  data_phase-Takes tx (some mode) = transfer_-Takes tx mode

  -- The phases of a write, in order, and those after the instruction and after the address.
  abbrev after_address : List ℕ → QuadTransfer → M Pin (List ℕ)
  after_address tx t = do
    dummy_phase sense spi t.dummy_cycles
    data_phase sense spi (Direction.write tx) t.bytes

  abbrev after_instruction : List ℕ → QuadTransfer → M Pin (List ℕ)
  after_instruction tx t = do addressed ← address_phase sense spi t.address; after_address tx t

  abbrev pub phases : List ℕ → QuadTransfer → M Pin (List ℕ)
  phases tx t = do sent ← instruction_phase sense spi t.instruction; after_instruction tx t

  after_address-Takes :
      (tx : List ℕ) (t : QuadTransfer)
      → Takes sense spi p
          (after_address tx t)
          (Reads (read_after_address (layout t (length tx))) (contents_sent t.bytes tx))
  after_address-Takes tx t =
      takes_both sense spi p (dummy_phase sense spi t.dummy_cycles)
        (λ x. data_phase sense spi (Direction.write tx) t.bytes)
        (λ a b long reads rest.
          ap (λ d. read_contents t.bytes (length tx) (drop d ((a ++ b) ++ rest))) (sym long)
          ∙ rw (append_assoc a b rest, drop-append a (b ++ rest)) (reads rest))
        (dummy_phase-Takes t.dummy_cycles) (λ x. data_phase-Takes tx t.bytes)

  after_instruction-Takes :
      (tx : List ℕ) (t : QuadTransfer)
      → Takes sense spi p (after_instruction tx t) (
          Reads
            (read_after_instruction (layout t (length tx)))
            (address_sent t.address, contents_sent t.bytes tx))
  after_instruction-Takes tx t =
      takes_both sense spi p (address_phase sense spi t.address) (λ x. after_address tx t)
        (λ a b.
          reads_then (λ x y. (x, y)) (read_address (address_layout t.address))
            (address_sent t.address) (read_after_address (layout t (length tx)))
            (contents_sent t.bytes tx) a b)
        (address_phase-Takes t.address) (λ x. after_address-Takes tx t)

  pub phases-Takes :
      (tx : List ℕ) (t : QuadTransfer)
      → Takes sense spi p (phases tx t) (Reads (decode (layout t (length tx))) (command t tx))
  unfolding decode
  phases-Takes tx t =
      takes_both sense spi p (instruction_phase sense spi t.instruction)
        (λ x. after_instruction tx t)
        (λ a b.
          reads_then (λ i (x, y). record { instruction = i; address = x; contents = y })
            (read_instruction (instruction_mode t.instruction)) (instruction_sent t.instruction)
            (read_after_instruction (layout t (length tx)))
            (address_sent t.address, contents_sent t.bytes tx) a b)
        (instruction_phase-Takes t.instruction) (λ x. after_instruction-Takes tx t)
