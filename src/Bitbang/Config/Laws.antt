-- ===== src/Bitbang/Config/Laws.antt =====
-- What `QuadTransfer::from_config` of src/bitbang.rs accepts, and the bytes of an address.
use embassy_sandbox.Prelude.{ℕ, ◌+◌, ◌*◌, ◌-◌, ◌%◌, ◌^◌, ◌<◌, ◌≡◌, ◌≢◌, ◌↔◌, ◌⊎◌, refl, arith}
use embassy_sandbox.Prelude.{Option, none, List, [], ◌∷◌, length, panic}
use embassy_sandbox.Qspi.{QspiWidth, AddressSize, TransferConfig, Hal}
use embassy_sandbox.Bitbang.Config.{from_width, address_phase, from_config}
use embassy_sandbox.Bitbang.Config.{first_byte, address_bytes}

from_width-panics_iff : (w : QspiWidth) → (from_width w ≡ panic) ↔ (w ≡ QspiWidth.dual)
unfolding from_width
from_width-panics_iff w = ground arith

address_phase-panics_iff :
    (a : Option ℕ) (w : QspiWidth) (size : AddressSize)
    → (address_phase a w size ≡ panic) ↔ ((a ≢ none) × (w ≡ QspiWidth.dual))
unfolding address_phase
address_phase-panics_iff a w size = ground arith

-- `from_config` panics exactly when a phase that takes part is dual: the instruction or the data, or
-- the address if there is one.
pub from_config-panics_iff :
    (hal : Hal) (t : TransferConfig hal.DummyCycles) (size : AddressSize)
    → (from_config hal t size ≡ panic) ↔ (
        (t.iwidth ≡ QspiWidth.dual)
        ⊎ (t.dwidth ≡ QspiWidth.dual)
        ⊎ ((t.address ≢ none) × (t.awidth ≡ QspiWidth.dual)))
unfolding from_config
from_config-panics_iff hal t size = ground arith

-- The number that big-endian bytes stand for.
abbrev pub be_value : ℕ → List ℕ → ℕ
be_value acc [] = acc
be_value acc (b ∷ bs) = be_value (acc * 2 ^ 8 + b) bs

pub length-address_bytes :
    (address : ℕ) (size : AddressSize) → length (address_bytes address size) ≡ 4 - first_byte size
unfolding address_bytes
length-address_bytes address AddressSize._8bit = refl
length-address_bytes address AddressSize._16bit = refl
length-address_bytes address AddressSize._24bit = refl
length-address_bytes address AddressSize._32bit = refl

-- The bytes of a u32 address that `quad_transfer` sends are as many as the address size says, and
-- stand, most significant first, for the address reduced to that size.
pub address_bytes-value :
    (address : ℕ) (size : AddressSize)
    → address < 2 ^ 32
    → (length (address_bytes address size) ≡ 4 - first_byte size)
      × (be_value 0 (address_bytes address size) ≡ address % 2 ^ (8 * (4 - first_byte size)))
unfolding address_bytes
address_bytes-value address AddressSize._8bit h = (refl, omega arith)
address_bytes-value address AddressSize._16bit h = (refl, omega arith)
address_bytes-value address AddressSize._24bit h = (refl, omega arith)
address_bytes-value address AddressSize._32bit h = (refl, omega arith)
