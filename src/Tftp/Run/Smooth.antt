-- ===== src/Tftp/Run/Smooth.antt =====
-- Runs of src/tftp.rs that give no error and do not wait for ever.
use embassy_sandbox.Prelude.{
  ℕ, ◌≡◌, refl, true, false, Bool, Bool-cases, inl, inr, List, leb, length, take, drop, Outcome,
  done, panic, starved,
}
use embassy_sandbox.Prelude
use embassy_sandbox.Tftp.Run.{
  Run, Result, ok, err, next, returned, failed, lift, slice_to, slice_from, ◌>>=◌, map_err,
}
use embassy_sandbox.Tftp.Run.Holds.{Holds}

module _ {E A W : Type 0} where
  -- The run returns `Ok` of a value with `P`, or panics.
  unfoldable pub Smooth : (A → W → Type 0) → Outcome (Result E A × W) → Type 0
  Smooth P (done (ok a, w)) = P a w
  Smooth P (done (err e, w)) = ⊥
  Smooth P panic = Unit
  Smooth P starved = ⊥

  -- If it does not panic either, it returns `Ok`.
  pub Smooth-returns :
      (P Q : A → W → Type 0) (o : Outcome (Result E A × W))
      → Holds P o
      → Smooth Q o
      → (a : A) × (w : W) × (o ≡ done (ok a, w)) × P a w × Q a w
  unfolding Holds Smooth
  Smooth-returns P Q (done (ok a, w)) p s = (a, w, refl, p, s)
  Smooth-returns P Q (done (err e, w)) p s = absurd s
  Smooth-returns P Q panic p s = absurd p
  Smooth-returns P Q starved p s = absurd s

module _ {E A B W : Type 0} (P : A → W → Type 0) (Q : B → W → Type 0) where
  pub bind-Smooth :
      (m : Run W E A) (f : A → Run W E B) (w : W)
      → Smooth P (m w)
      → ((a : A) (w' : W) → P a w' → Smooth Q (f a w'))
      → Smooth Q ((m >>= f) w)
  unfolding Smooth
  bind-Smooth m f w s h = follows (m w) s
    where
      follows : (o : Outcome (Result E A × W)) → Smooth P o → Smooth Q (Prelude.◌>>=◌ o (next f))
      follows (done (ok a, w')) s = h a w' s
      follows (done (err e, w')) s = absurd s
      follows panic s = tt
      follows starved s = absurd s

module _ {E F A W : Type 0} (f : F → E) (P : A → W → Type 0) where
  pub returned-Smooth :
      (r : Result F A) (w : W) (a : A) → r ≡ ok a → P a w → Smooth P (returned f r w)
  unfolding Smooth
  returned-Smooth r w a e p = rw e p

  pub map_err-Smooth : (m : Run W F A) (w : W) → Smooth P (m w) → Smooth P (map_err f m w)
  unfolding Smooth
  map_err-Smooth m w s = mapped (m w) s
    where
      mapped : (o : Outcome (Result F A × W)) → Smooth P o → Smooth P (Prelude.◌>>=◌ o (failed f))
      mapped (done (ok a, w')) s = s
      mapped (done (err e, w')) s = s
      mapped panic s = tt
      mapped starved s = s

module _ (E : Type 0) {W : Type 0} (P : List ℕ → W → Type 0) where
  pub slice_to-Smooth :
      (xs : List ℕ) (n : ℕ) (w : W) → P (take n xs) w → Smooth {E = E} P (lift (slice_to xs n) w)
  unfolding Smooth
  slice_to-Smooth xs n w p = elim (Bool-cases (leb n (length xs))) [
    | inl fits ↦ rw fits p
    | inr over ↦ rw over tt
  ]

  pub slice_from-Smooth :
      (xs : List ℕ) (n : ℕ) (w : W) → P (drop n xs) w → Smooth {E = E} P (lift (slice_from xs n) w)
  unfolding Smooth
  slice_from-Smooth xs n w p = elim (Bool-cases (leb n (length xs))) [
    | inl fits ↦ rw fits p
    | inr over ↦ rw over tt
  ]
