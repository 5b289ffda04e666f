-- ===== src/Flash/Setup/Session.antt =====
-- `Device::new` of src/flash.rs and the calls that follow it.
use embassy_sandbox.Prelude.{
  ℕ, ◌*◌, ◌/◌, ◌≤◌, ◌<◌, ◌≡◌, ◌≢◌, refl, ◌∙◌, ap, arith, Option, none, some, ltb, ◌==◌, false, true,
  List, done,
}
use embassy_sandbox.Qspi.{Hal, AddressSize}
use embassy_sandbox.Flash.Mode.{single}
use embassy_sandbox.Flash.Transfer
use embassy_sandbox.Flash.Chip.{Chip, Ready}
use embassy_sandbox.Flash.Device.{Device}
use embassy_sandbox.Flash.Sessions.{
  Call, AllAllowed, Returns, answers, effects, session, session-Returns,
}
use embassy_sandbox.Flash.Setup.{
  Board, Config, ExtendedPins, cs_high_time_ns, max_freq, hold_pins, start_up, new,
}
use embassy_sandbox.Flash.Setup.Laws.{high_time-returns}

-- A step that leaves a ready chip ready and its cells as they are.
abbrev pub Keeps : (hal : Hal) → Chip hal → (hal.Bus → hal.Bus) → Type 0
Keeps hal chip step =
    (b : hal.Bus)
    → chip.pending b ≡ 0
    → (chip.pending (step b) ≡ 0) × (chip.mem (step b) ≡ chip.mem b)

-- What `Device::new` relies on: a reset, with the time that the data sheet gives it, and the other
-- commands leave a ready chip ready and its cells as they are, `en4b` makes it take addresses of four
-- bytes, and setting up the pins and the peripheral sends nothing.
pub record StartUp (hal : Hal) (chip : Chip hal) (board : Board hal) : Type 0 where
  pub hold_high_keeps : (pin : board.Pin) → Keeps hal chip (board.hold_high pin)
  pub new_bank1_keeps : (config : Config hal) → Keeps hal chip (board.new_bank1 config)
  pub rst_keeps : Keeps hal chip (λ b.
      hal.after
        (1200 * 1000)
        (hal.command (Transfer.rst hal single) (hal.command (Transfer.rsten hal single) b)))
  pub en4b_keeps : Keeps hal chip (hal.command (Transfer.en4b hal single))
  pub en4b_wide :
      (b : hal.Bus)
      → chip.pending b ≡ 0
      → chip.wide (hal.command (Transfer.en4b hal single) b) ≡ true
  pub rdid_wide : (b : hal.Bus) → chip.wide (hal.read_dma 3 (Transfer.rdid hal) b).1 ≡ chip.wide b
  pub rdcr_wide :
      (b : hal.Bus) → chip.wide (hal.read_dma 1 (Transfer.rdcr hal single) b).1 ≡ chip.wide b
  pub rdid_keeps : Keeps hal chip (λ b. (hal.read_dma 3 (Transfer.rdid hal) b).1)
  pub rdcr_keeps : Keeps hal chip (λ b. (hal.read_dma 1 (Transfer.rdcr hal single) b).1)

module _ (hal : Hal) (chip : Chip hal) (board : Board hal) where
  open hal use {Bus, MemorySize}
  open chip use {pending, mem, capacity}
  open board use {Pin, cycles_of, hold_high, new_bank1}

  then_Keeps :
      (f g : Bus → Bus) → Keeps hal chip f → Keeps hal chip g → Keeps hal chip (λ b. g (f b))
  then_Keeps f g first second b ready =
      let (ready', same) = first b ready in
      let (ready'', same') = second (f b) ready' in (ready'', same' ∙ same)

  rdsr-Keeps : Keeps hal chip (λ b. (hal.read_dma 1 (Transfer.rdsr hal single) b).1)
  rdsr-Keeps b ready = (omega (arith, chip.rdsr_pending b), (λ i x. chip.rdsr_mem b x i))

  module _ (starts : StartUp hal chip board) where
    hold_pins-Keeps :
        (extended : Option (ExtendedPins Pin)) (d2 d3 : Pin)
        → Keeps hal chip (hold_pins hal board extended d2 d3)
    unfolding hold_pins
    hold_pins-Keeps (some extended) d2 d3 =
        then_Keeps (hold_high extended.nwp) (hold_high extended.nreset)
          (starts.hold_high_keeps extended.nwp) (starts.hold_high_keeps extended.nreset)
    hold_pins-Keeps none d2 d3 =
        then_Keeps (hold_high d2) (hold_high d3) (starts.hold_high_keeps d2)
          (starts.hold_high_keeps d3)

    -- It leaves a ready chip set to addresses of four bytes, and its cells as they are.
    start_up-Ready :
        (b : Bus)
        → pending b ≡ 0
        → Ready hal chip (start_up hal board b) × (mem (start_up hal board b) ≡ mem b)
    unfolding start_up
    start_up-Ready b ready =
        let (ready1, same1) = starts.rst_keeps b ready in
        let (ready2, same2) = starts.en4b_keeps _ ready1 in
        let wide2 = starts.en4b_wide _ ready1 in
        let (ready3, same3) = starts.rdid_keeps _ ready2 in
        let wide3 = starts.rdid_wide _ ∙ wide2 in
        let (ready4, same4) = rdsr-Keeps _ ready3 in
        let wide4 = chip.rdsr_wide _ ∙ wide3 in
        let (ready5, same5) = starts.rdcr_keeps _ ready4 in
        ((ready5, starts.rdcr_wide _ ∙ wide4), same5 ∙ same4 ∙ same3 ∙ same2 ∙ same1)

    new-Ready :
        (size : MemorySize) (ahb_freq prescaler : ℕ) (d2 d3 : Pin)
        (extended : Option (ExtendedPins Pin)) (bus : Bus)
        → prescaler ≢ 0
        → ahb_freq / prescaler < max_freq
        → cycles_of cs_high_time_ns (ahb_freq / prescaler) ≤ 8
        → pending bus ≡ 0
        → (device : Device hal) × (new hal board size ahb_freq prescaler d2 d3 extended bus
            ≡ done device)
          × Ready hal chip device.spi
          × (mem device.spi ≡ mem bus)
    unfolding new
    new-Ready size ahb_freq prescaler d2 d3 extended bus divides slow few ready =
        let (t, e) = high_time-returns (cycles_of cs_high_time_ns (ahb_freq / prescaler)) few in
        let config : Config hal = record {
          memory_size = size;
          address_size = AddressSize._32bit;
          prescaler = prescaler;
          cs_high_time = t;
        } in
        let (ready1, same1) = hold_pins-Keeps extended d2 d3 bus ready in
        let (ready2, same2) = starts.new_bank1_keeps config _ ready1 in
        let (ready3, same3) = start_up-Ready _ ready2 in
        let divided : (prescaler == 0) ≡ false = ground arith in
        let below : ltb (ahb_freq / prescaler) max_freq ≡ true = ground arith in
        (
          record {
            size = size;
            spi = start_up hal board (new_bank1 config (hold_pins hal board extended d2 d3 bus));
          },
          rw (divided, below, e) refl,
          ready3,
          same3 ∙ same2 ∙ same1,
        )

    -- If the prescaler is not zero, its clock is below 60 MHz and a chip select of 30 ns takes at most
    -- eight cycles of it, `Device::new` makes a driver of a chip with no write under way, whatever the
    -- length of address that the chip is set to; and any calls of the driver that stay inside the
    -- memory, with ranges that are not empty and data that reaches the first page boundary, return
    -- with enough polls and rounds: they answer as a memory with the cells from before `Device::new`,
    -- and leave the chip ready, set to addresses of four bytes and with the cells of that memory.
    pub new-session :
        (size : MemorySize) (ahb_freq prescaler : ℕ) (d2 d3 : Pin)
        (extended : Option (ExtendedPins Pin)) (bus : Bus)
        → prescaler ≢ 0
        → ahb_freq / prescaler < max_freq
        → cycles_of cs_high_time_ns (ahb_freq / prescaler) ≤ 8
        → pending bus ≡ 0
        → (rounds polls : ℕ) → chip.patience < polls
        → (calls : List Call) → AllAllowed capacity rounds calls
        → (device : Device hal) × (new hal board size ahb_freq prescaler d2 d3 extended bus
            ≡ done device)
          × Returns hal rounds polls chip
              (answers capacity calls (mem bus))
              (effects capacity calls (mem bus))
              (session hal rounds polls calls device.spi)
    new-session size ahb_freq prescaler d2 d3 extended bus divides slow few ready rounds polls
          patient calls allowed =
        let (device, made, ready', same) =
          new-Ready size ahb_freq prescaler d2 d3 extended bus divides slow few ready in
        let (after, returns, ready'', held) =
          session-Returns hal rounds polls chip patient calls device.spi allowed ready' in
        (
          device,
          made,
          (
            after,
            returns ∙ ap (λ m. done (answers capacity calls m, after)) same,
            ready'',
            held ∙ ap (effects capacity calls) same,
          ),
        )
