-- ===== src/Blink.antt =====
-- `blink` of src/main.rs: the two lights, as what is done with them and the time between.
pub mod Times
use embassy_sandbox.Prelude.{ℕ, zero, suc, Bool, true, false, List, [], ◌∷◌, ◌++◌}

pub data Light : Type 0 where
  ld1 ld2 : Light

pub data Event : Type 0 where
  set_high set_low : Light → Event
  -- `Timer::after_millis`.
  after_millis : ℕ → Event

-- `if DHCP_UP.signaled() { ld2.set_high(); }`
abbrev pub show : Bool → List Event
show true = Event.set_high ld2 ∷ []
show false = []

-- A pass through the loop.
abbrev pub pass : Bool → List Event
pass signaled =
    Event.set_high ld1 ∷ show signaled
    ++ Event.after_millis 500
      ∷ Event.set_low ld1
      ∷ Event.after_millis 500
      ∷ Event.set_high ld1
      ∷ Event.set_low ld2
      ∷ Event.after_millis 500
      ∷ Event.set_low ld1
      ∷ Event.after_millis 500
      ∷ []

-- The first passes of the loop, which has no end; `signaled i` is what `DHCP_UP` shows in pass `i`.
unfoldable pub blink : (ℕ → Bool) → ℕ → List Event
blink signaled zero = []
blink signaled (suc n) = pass (signaled 0) ++ blink (λ i. signaled (suc i)) n
