-- ===== src/Prelude/Results.antt =====
-- The result of code that may stop: Rust's panics, and the fuel of the loops that wait for a
-- device. Arithmetic that panics on overflow is here too.
use Prim.Native.Nat.{ℕ, ◌-◌, ◌≤◌}
use mathlib.Core.Path.{◌≡◌, refl}
use mathlib.Core.Bool.{Bool, true, false}
use mathlib.Core.Option.{Option, none, some}
use mathlib.Core.List.{List, [], ◌∷◌}
use native.Mathlib.Omega.{arith}
use embassy_sandbox.Prelude.Tests.{leb, if◌then◌else◌}

-- `starved` is no result of the program: the model's fuel ran out before the loop ended.
pub data Outcome {ℓ} (A : Type ℓ) : Type ℓ where
  done : A → Outcome A
  panic : Outcome A
  starved : Outcome A

infixl 5 ◌>>=◌ ◌>>◌
abbrev pub ◌>>=◌ {ℓ κ} : {A : Type ℓ} {B : Type κ} → Outcome A → (A → Outcome B) → Outcome B
done a >>= f = f a
panic >>= f = panic
starved >>= f = starved

abbrev pub ◌>>◌ {ℓ} : {B : Type ℓ} → Outcome (Unit {0}) → Outcome B → Outcome B
m >> k = m >>= λ _. k

-- `assert!`.
abbrev pub assert : Bool → Outcome (Unit {0})
assert true = done tt
assert false = panic

-- `Option::expect`, and an index that the language checks.
abbrev pub expect {ℓ} : {A : Type ℓ} → Option A → Outcome A
expect none = panic
expect (some a) = done a

-- `a - b` on unsigned integers, which panics below zero.
abbrev pub checked_sub : ℕ → ℕ → Outcome ℕ
checked_sub a b = if leb b a then done (a - b) else panic

-- `map` of an array by a function that may panic, in the array's order.
module _ {ℓ κ} {A : Type ℓ} {B : Type κ} (f : A → Outcome B) where
  abbrev pub map_each : List A → Outcome (List B)
  map_each [] = done []
  map_each (x ∷ xs) = do y ← f x; ys ← map_each xs; done (y ∷ ys)

pub checked_sub_of_le : {a b : ℕ} → b ≤ a → checked_sub a b ≡ done (a - b)
checked_sub_of_le h = ground arith

pub bind_assoc {ℓ κ ι} :
    {A : Type ℓ} {B : Type κ} {C : Type ι} (m : Outcome A) (f : A → Outcome B) (g : B → Outcome C)
    → (m >>= f >>= g) ≡ (m >>= λ a. f a >>= g)
bind_assoc (done a) f g = refl
bind_assoc panic f g = refl
bind_assoc starved f g = refl
