-- ===== src/Flash/Program/Span.antt =====
-- What a run of consecutive cells holds after `Device::program` of src/flash.rs: the page writes
-- of the chip, joined.
use embassy_sandbox.Prelude.{ℕ, ◌+◌, ◌-◌, ◌%◌, ◌≤◌, ◌≡◌, arith, ltb, leb, ◌&&◌}
use embassy_sandbox.Prelude.{if◌then◌else◌, List, [], length, take, drop, get_or, bit_and}
use embassy_sandbox.Prelude.{length-take, length-drop, get_or-take, get_or-drop}
use embassy_sandbox.Flash.Chip.{page_write}

-- The cells from `a` on lose the bits that the bytes have clear, and no other cell changes.
unfoldable pub span_write : List ℕ → ℕ → (ℕ → ℕ) → ℕ → ℕ
span_write bytes a old x =
    if leb a x && ltb x (a + length bytes)
    then bit_and (old x) (get_or bytes (x - a) 255)
    else old x

-- A write that ends within its page is not turned back to the start of the page.
pub page_write-eq_span :
    (bytes : List ℕ) (a : ℕ) (old : ℕ → ℕ) (x : ℕ)
    → a % 256 + length bytes ≤ 256
    → page_write bytes a old x ≡ span_write bytes a old x
unfolding span_write
page_write-eq_span bytes a old x h = ground arith

pub span_write-nil : (a : ℕ) (old : ℕ → ℕ) (x : ℕ) → span_write [] a old x ≡ old x
unfolding span_write
span_write-nil a old x = ground arith

-- Two adjacent writes are one.
pub span_write-append :
    (n : ℕ) (bytes : List ℕ) (a : ℕ) (old : ℕ → ℕ) (x : ℕ)
    → n ≤ length bytes
    → span_write (drop n bytes) (a + n) (span_write (take n bytes) a old) x
      ≡ span_write bytes a old x
unfolding span_write
span_write-append n bytes a old x h = ground (
  arith,
  length-take n bytes,
  length-drop n bytes,
  get_or-take n (x - a) bytes 255,
  get_or-drop n (x - (a + n)) bytes 255,
)

pub span_write-congr :
    (bytes : List ℕ) (a : ℕ) (old new : ℕ → ℕ) (x : ℕ)
    → old x ≡ new x
    → span_write bytes a old x ≡ span_write bytes a new x
unfolding span_write
span_write-congr bytes a old new x e = rw e
