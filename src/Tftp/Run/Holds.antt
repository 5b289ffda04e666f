-- ===== src/Tftp/Run/Holds.antt =====
-- A predicate on the results of the runs of src/tftp.rs, carried from one step to the next.
use embassy_sandbox.Prelude.{
  ℕ, ◌≤◌, ◌≡◌, refl, arith, true, false, Bool, if◌then◌else◌, List, length, take, drop, leb,
}
use embassy_sandbox.Prelude
use embassy_sandbox.Prelude.{Outcome, done, panic, starved}
use embassy_sandbox.Tftp.Run.{
  Run, Result, ok, err, next, returned, failed, try, lift, slice_to, slice_from, ◌>>=◌, map_err,
}

module _ {E A W : Type 0} where
  -- The run does not panic, and if it returns `Ok` the result is as `P` says.
  unfoldable pub Holds : (A → W → Type 0) → Outcome (Result E A × W) → Type 0
  Holds P (done (ok a, w)) = P a w
  Holds P (done (err e, w)) = Unit
  Holds P panic = ⊥
  Holds P starved = Unit

  pub Holds-weaken :
      {P Q : A → W → Type 0} (o : Outcome (Result E A × W))
      → Holds P o
      → ((a : A) (w : W) → P a w → Q a w)
      → Holds Q o
  unfolding Holds
  Holds-weaken (done (ok a, w)) p h = h a w p
  Holds-weaken (done (err e, w)) p h = tt
  Holds-weaken panic p h = absurd p
  Holds-weaken starved p h = tt

  pub if-Holds :
      (P : A → W → Type 0) (b : Bool) (m n : Run W E A) (w : W)
      → Holds P (m w)
      → Holds P (n w)
      → Holds P ((if b then m else n) w)
  unfolding Holds
  if-Holds P true m n w p q = p
  if-Holds P false m n w p q = q

module _ {E A B W : Type 0} where
  next-Holds :
      (P : A → W → Type 0) (Q : B → W → Type 0) (f : A → Run W E B) (o : Outcome (Result E A × W))
      → Holds P o
      → ((a : A) (w : W) → P a w → Holds Q (f a w))
      → Holds Q (Prelude.◌>>=◌ o (next f))
  unfolding Holds
  next-Holds P Q f (done (ok a, w)) p h = h a w p
  next-Holds P Q f (done (err e, w)) p h = tt
  next-Holds P Q f panic p h = absurd p
  next-Holds P Q f starved p h = tt

  pub bind-Holds :
      (P : A → W → Type 0) (Q : B → W → Type 0) (m : Run W E A) (f : A → Run W E B) (w : W)
      → Holds P (m w)
      → ((a : A) (w' : W) → P a w' → Holds Q (f a w'))
      → Holds Q ((m >>= f) w)
  bind-Holds P Q m f w p h = next-Holds P Q f (m w) p h

module _ {E F A W : Type 0} (f : F → E) where
  pub returned-Holds :
      (P : A → W → Type 0) (r : Result F A) (w : W)
      → ((a : A) → r ≡ ok a → P a w)
      → Holds P (returned {W = W} f r w)
  unfolding Holds
  returned-Holds P (ok a) w h = h a refl
  returned-Holds P (err e) w h = tt

  pub try-Holds :
      (P : A → W → Type 0) (call : W → Result F A × W) (w : W)
      → ((a : A) → P a (call w).1)
      → Holds P (try f call w)
  try-Holds P call w h = returned-Holds P (call w).0 (call w).1 (λ a e. h a)

  pub map_err-Holds :
      (P : A → W → Type 0) (m : Run W F A) (w : W) → Holds P (m w) → Holds P (map_err f m w)
  unfolding Holds
  map_err-Holds P m w p = mapped (m w) p
    where
      mapped : (o : Outcome (Result F A × W)) → Holds P o → Holds P (Prelude.◌>>=◌ o (failed f))
      mapped (done (ok a, w')) p = p
      mapped (done (err e, w')) p = tt
      mapped panic p = absurd p
      mapped starved p = tt

module _ {W : Type 0} where
  pub slice_to-Holds :
      (E : Type 0) (P : List ℕ → W → Type 0) (xs : List ℕ) (n : ℕ) (w : W)
      → n ≤ length xs
      → P (take n xs) w
      → Holds {E = E} P (lift (slice_to xs n) w)
  unfolding Holds
  slice_to-Holds E P xs n w h p = let fits : leb n (length xs) ≡ true = ground arith in rw fits p

  pub slice_from-Holds :
      (E : Type 0) (P : List ℕ → W → Type 0) (xs : List ℕ) (n : ℕ) (w : W)
      → n ≤ length xs
      → P (drop n xs) w
      → Holds {E = E} P (lift (slice_from xs n) w)
  unfolding Holds
  slice_from-Holds E P xs n w h p = let fits : leb n (length xs) ≡ true = ground arith in rw fits p
