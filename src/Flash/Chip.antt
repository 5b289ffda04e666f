-- ===== src/Flash/Chip.antt =====
-- What src/flash.rs relies on of the serial NOR flash behind the bus, as its data sheet documents
-- it: a named hypothesis for each command that the driver sends.
use embassy_sandbox.Prelude.{ℕ, ◌+◌, ◌-◌, ◌/◌, ◌%◌, ◌^◌, ◌≤◌, ◌<◌, ◌≡◌, bit_and}
use embassy_sandbox.Prelude.{Bool, true, ltb, ◌==◌, ◌&&◌, if◌then◌else◌, List, length, get_or}
use embassy_sandbox.Qspi.{Hal}
use embassy_sandbox.Flash.Mode.{single}
use embassy_sandbox.Flash.Flags.{wip}
use embassy_sandbox.Flash.Transfer

-- The place of cell `x` in data that is sent from address `a` on, counting on within the page.
abbrev pub page_index : ℕ → ℕ → ℕ
page_index a x = (x % 256 + 256 - a % 256) % 256

-- Programming clears bits and sets none. Past the end of a page the chip goes on at its start.
abbrev pub page_write : List ℕ → ℕ → (ℕ → ℕ) → ℕ → ℕ
page_write bytes a old x =
    if x / 256 == a / 256 && ltb (page_index a x) (length bytes)
    then bit_and (old x) (get_or bytes (page_index a x) 255)
    else old x

abbrev pub sector_erase : ℕ → (ℕ → ℕ) → ℕ → ℕ
sector_erase a old x = if x / 4096 == a / 4096 then 255 else old x

module _ (hal : Hal) where
  open hal use {Bus, flags_contain, command, read_dma, write_dma, after}

  pub record Chip : Type 0 where
    pub capacity : ℕ
    pub capacity-le : capacity ≤ 2 ^ 32
    pub mem : Bus → ℕ → ℕ
    pub enabled : Bus → Bool
    -- It takes addresses of four bytes, as the driver sends them.
    pub wide : Bus → Bool
    -- How often the status register is still to be read as busy.
    pub pending : Bus → ℕ
    pub patience : ℕ
    -- A status read returns the busy flag, whatever the buffer held, and brings readiness nearer.
    pub rdsr_flag :
        (sr : ℕ) (b : Bus)
        → flags_contain (get_or (read_dma 1 (Transfer.rdsr hal single) b).0 0 sr) wip
          ≡ ltb 0 (pending b)
    pub rdsr_pending :
        (b : Bus) → pending (read_dma 1 (Transfer.rdsr hal single) b).1 ≡ pending b - 1
    pub rdsr_mem : (b : Bus) (x : ℕ) → mem (read_dma 1 (Transfer.rdsr hal single) b).1 x ≡ mem b x
    pub rdsr_wide : (b : Bus) → wide (read_dma 1 (Transfer.rdsr hal single) b).1 ≡ wide b
    pub after_pending : (t : ℕ) (b : Bus) → pending (after t b) ≤ pending b
    pub after_mem : (t : ℕ) (b : Bus) (x : ℕ) → mem (after t b) x ≡ mem b x
    pub after_wide : (t : ℕ) (b : Bus) → wide (after t b) ≡ wide b
    -- A ready chip takes a write enable.
    pub wren_enabled :
        (b : Bus) → pending b ≡ 0 → enabled (command (Transfer.wren hal single) b) ≡ true
    pub wren_pending :
        (b : Bus) → pending b ≡ 0 → pending (command (Transfer.wren hal single) b) ≡ 0
    pub wren_mem :
        (b : Bus) (x : ℕ) → pending b ≡ 0 → mem (command (Transfer.wren hal single) b) x ≡ mem b x
    pub wren_wide : (b : Bus) → wide (command (Transfer.wren hal single) b) ≡ wide b
    -- A ready and enabled chip programs within one page, and is busy for a while.
    pub pp_pending :
        (bytes : List ℕ) (a : ℕ) (b : Bus)
        → pending b ≡ 0
        → enabled b ≡ true
        → pending (write_dma bytes (Transfer.pp hal single a) b) ≤ patience
    pub pp_mem :
        (bytes : List ℕ) (a : ℕ) (b : Bus) (x : ℕ)
        → pending b ≡ 0
        → enabled b ≡ true
        → wide b ≡ true
        → a < capacity
        → length bytes ≤ 256
        → mem (write_dma bytes (Transfer.pp hal single a) b) x ≡ page_write bytes a (mem b) x
    pub pp_wide :
        (bytes : List ℕ) (a : ℕ) (b : Bus)
        → wide (write_dma bytes (Transfer.pp hal single a) b) ≡ wide b
    -- So for the erasure of the sector of `a`.
    pub se_pending :
        (a : ℕ) (b : Bus)
        → pending b ≡ 0
        → enabled b ≡ true
        → pending (command (Transfer.se hal single a) b) ≤ patience
    pub se_mem :
        (a : ℕ) (b : Bus) (x : ℕ)
        → pending b ≡ 0
        → enabled b ≡ true
        → wide b ≡ true
        → a < capacity
        → mem (command (Transfer.se hal single a) b) x ≡ sector_erase a (mem b) x
    pub se_wide : (a : ℕ) (b : Bus) → wide (command (Transfer.se hal single a) b) ≡ wide b
    -- And for the erasure of the whole chip.
    pub ce_pending :
        (b : Bus)
        → pending b ≡ 0
        → enabled b ≡ true
        → pending (command (Transfer.ce hal single) b) ≤ patience
    pub ce_mem :
        (b : Bus) (x : ℕ)
        → pending b ≡ 0
        → enabled b ≡ true
        → mem (command (Transfer.ce hal single) b) x ≡ (if ltb x capacity then 255 else mem b x)
    pub ce_wide : (b : Bus) → wide (command (Transfer.ce hal single) b) ≡ wide b
    -- A ready chip answers a read with its cells in order.
    pub read_length : (n a : ℕ) (b : Bus) → length (read_dma n (Transfer.read hal a) b).0 ≡ n
    pub read_cell :
        (n a i : ℕ) (b : Bus)
        → pending b ≡ 0
        → wide b ≡ true
        → i < n
        → a + i < capacity
        → get_or (read_dma n (Transfer.read hal a) b).0 i 0 ≡ mem b (a + i)
    pub read_pending :
        (n a : ℕ) (b : Bus) → pending (read_dma n (Transfer.read hal a) b).1 ≡ pending b
    pub read_mem : (n a x : ℕ) (b : Bus) → mem (read_dma n (Transfer.read hal a) b).1 x ≡ mem b x
    pub read_wide : (n a : ℕ) (b : Bus) → wide (read_dma n (Transfer.read hal a) b).1 ≡ wide b

-- Ready, and set to addresses of four bytes.
abbrev pub Ready : (hal : Hal) → Chip hal → hal.Bus → Type 0
Ready hal chip b = (chip.pending b ≡ 0) × (chip.wide b ≡ true)
