-- ===== src/Tftp/Run.antt =====
-- The `async fn`s of src/tftp.rs: state passing with an error that `?` returns early, and a panic.
pub mod Holds
pub mod Smooth
use embassy_sandbox.Prelude.{ℕ, ◌+◌, List, length, take, drop, leb, if◌then◌else◌}
use embassy_sandbox.Prelude
use embassy_sandbox.Prelude.{Outcome, done, panic, starved}

pub data Result (E A : Type 0) : Type 0 where
  ok : A → Result E A
  err : E → Result E A

abbrev pub Run : Type 0 → Type 0 → Type 0 → Type 0
Run W E A = W → Outcome (Result E A × W)

module _ {W E A B : Type 0} where
  abbrev pub next : (A → Run W E B) → Result E A × W → Outcome (Result E B × W)
  next f (ok a, w) = f a w
  next f (err e, w) = done (err e, w)

infixl 5 ◌>>=◌ ◌>>◌
abbrev pub ◌>>=◌ : {W E A B : Type 0} → Run W E A → (A → Run W E B) → Run W E B
◌>>=◌ m f w = Prelude.◌>>=◌ (m w) (next f)

abbrev pub ◌>>◌ : {W E B : Type 0} → Run W E (Unit {0}) → Run W E B → Run W E B
m >> k = m >>= λ _. k

abbrev pub pure : {W E A : Type 0} → A → Run W E A
pure a w = done (ok a, w)

-- A result with `map_err` and `?`.
abbrev pub returned : {W E F A : Type 0} → (F → E) → Result F A → Run W E A
returned f (ok a) w = done (ok a, w)
returned f (err e) w = done (err (f e), w)

-- The same of a call that changes the state.
abbrev pub try : {W E F A : Type 0} → (F → E) → (W → Result F A × W) → Run W E A
try f call w = let (result, w') = call w in returned f result w'

-- A fallible call with `map_err` and `?`.
abbrev pub failed : {W E F A : Type 0} → (F → E) → Result F A × W → Outcome (Result E A × W)
failed f (result, w) = returned f result w

abbrev pub map_err : {W E F A : Type 0} → (F → E) → Run W F A → Run W E A
map_err f m w = Prelude.◌>>=◌ (m w) (failed f)

abbrev pub reads : {W E A : Type 0} → (W → A) → Run W E A
reads f w = done (ok (f w), w)

-- Code that may panic.
abbrev pub lift : {W E A : Type 0} → Outcome A → Run W E A
lift (done a) w = done (ok a, w)
lift panic w = panic
lift starved w = starved

-- `&xs[..n]` and `&xs[n..]`.
abbrev pub slice_to : List ℕ → ℕ → Outcome (List ℕ)
slice_to xs n = if leb n (length xs) then done (take n xs) else panic

abbrev pub slice_from : List ℕ → ℕ → Outcome (List ℕ)
slice_from xs n = if leb n (length xs) then done (drop n xs) else panic
