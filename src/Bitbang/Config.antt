-- ===== src/Bitbang/Config.antt =====
-- `Mode`, `QuadTransfer` and their conversions from the HAL's types, of src/bitbang.rs.
pub mod Laws
use embassy_sandbox.Prelude.{ℕ, ◌/◌, ◌%◌, ◌^◌, Option, none, some, List, [], ◌∷◌, drop}
use embassy_sandbox.Prelude.{Outcome, done, panic, ◌>>=◌}
use embassy_sandbox.Qspi.{QspiWidth, AddressSize, TransferConfig, Hal}

pub data Mode : Type 0 where
  single quad : Mode

pub record QuadTransfer : Type 0 where
  pub instruction : Option (ℕ × Mode)
  pub address : Option (ℕ × Mode × AddressSize)
  -- `data` in the source.
  pub bytes : Option Mode
  pub dummy_cycles : ℕ

-- `Mode::from_width`, which panics on the dual width.
unfoldable pub from_width : QspiWidth → Outcome (Option Mode)
from_width QspiWidth.none = done none
from_width QspiWidth.sing = done (some single)
from_width QspiWidth.dual = panic
from_width QspiWidth.quad = done (some quad)

abbrev with_mode {ℓ} : {A : Type ℓ} → (Mode → A) → Option Mode → Option A
with_mode f none = none
with_mode f (some mode) = some (f mode)

-- The address phase: its width is looked at only if there is an address.
unfoldable pub address_phase :
    Option ℕ → QspiWidth → AddressSize → Outcome (Option (ℕ × Mode × AddressSize))
unfolding from_width
address_phase none awidth size = done none
address_phase (some address) awidth size = do
  mode ← from_width awidth
  done (with_mode (λ m. (address, m, size)) mode)

-- `QuadTransfer::from_config`.
unfoldable pub from_config :
    (hal : Hal) → TransferConfig hal.DummyCycles → AddressSize → Outcome QuadTransfer
unfolding from_width address_phase
from_config hal transfer address_size = do
  iwidth ← from_width transfer.iwidth
  address ← address_phase transfer.address transfer.awidth address_size
  dwidth ← from_width transfer.dwidth
  done (record {
    instruction = with_mode (λ m. (transfer.instruction, m)) iwidth;
    address = address;
    bytes = dwidth;
    dummy_cycles = hal.cycles transfer.dummy;
  })

-- `u32::to_be_bytes`.
abbrev pub to_be_bytes : ℕ → List ℕ
to_be_bytes a = a / 2 ^ 24 % 2 ^ 8 ∷ a / 2 ^ 16 % 2 ^ 8 ∷ a / 2 ^ 8 % 2 ^ 8 ∷ a % 2 ^ 8 ∷ []

-- The first byte of an address that is sent.
abbrev pub first_byte : AddressSize → ℕ
first_byte AddressSize._8bit = 3
first_byte AddressSize._16bit = 2
first_byte AddressSize._24bit = 1
first_byte AddressSize._32bit = 0

unfoldable pub address_bytes : ℕ → AddressSize → List ℕ
address_bytes address size = drop (first_byte size) (to_be_bytes address)
