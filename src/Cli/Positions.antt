-- ===== src/Cli/Positions.antt =====
-- The positions that the searches of `tagged_delim` of src/cli.rs give.
use embassy_sandbox.Prelude.{
  ℕ, zero, suc, ◌+◌, ◌-◌, ◌≤◌, ◌<◌, ◌≡◌, ◌≢◌, ◌⊎◌, refl, ap, arith, if◌then◌else◌,
}
use embassy_sandbox.Prelude.{
  true, ◌&&◌, ◌==◌, Option, none, some, List, [], ◌∷◌, ◌++◌, length, take, drop, leb,
}
use embassy_sandbox.Prelude.{Outcome, done}
use embassy_sandbox.Cli.{Search, same, closing, find_map}
use embassy_sandbox.Cli.Laws.{Occurs, Each}

-- It stands in the list.
pub data Listed (p : ℕ) : List ℕ → Type 0 where
  here : {ps : List ℕ} → Listed p (p ∷ ps)
  there : {q : ℕ} {ps : List ℕ} → Listed p ps → Listed p (q ∷ ps)

abbrev pub Ascends : List ℕ → Type 0
Ascends [] = Unit
Ascends (p ∷ ps) = Each (λ q. p < q) ps × Ascends ps

-- No occurrence comes before that position.
abbrev pub NoneBefore : List ℕ → List ℕ → ℕ → Type 0
NoneBefore haystack needle p = (q : ℕ) → q < p → Occurs haystack needle q → ⊥

-- `find` gives the first occurrence; `find_iter` gives occurrences in order, and one that it does not
-- give overlaps with one that it gives before.
pub record Thorough (search : Search) : Type 0 where
  pub finds :
      (haystack needle : List ℕ) (p : ℕ)
      → Occurs haystack needle p
      → NoneBefore haystack needle p
      → search.find haystack needle ≡ some p
  pub ascends : (haystack needle : List ℕ) → Ascends (search.find_iter haystack needle)
  pub sound :
      (haystack needle : List ℕ) → Each (Occurs haystack needle) (search.find_iter haystack needle)
  pub lists :
      (haystack needle : List ℕ) (p : ℕ)
      → Occurs haystack needle p
      → Listed p (search.find_iter haystack needle)
        ⊎ ((q : ℕ) × Listed q (search.find_iter haystack needle)
            × (q < p)
            × (p < q + length needle))

-- The byte does not stand in the tag.
abbrev pub Lacks : ℕ → List ℕ → Type 0
Lacks d tag = Each (λ b. b ≢ d) tag

pub each_at : (P : ℕ → Type 0) {p : ℕ} (ps : List ℕ) → Each P ps → Listed p ps → P p
each_at P _ e here = e.0
each_at P _ e (there l) = each_at P _ e.1 l

head : List ℕ → ℕ
head [] = 0
head (x ∷ xs) = x

-- A byte of a tag that lacks `d` is not `d`.
pub Lacks-at :
    (d k : ℕ) (tag rest : List ℕ)
    → Lacks d tag
    → k < length tag
    → take 1 (drop k (tag ++ rest)) ≢ d ∷ []
unfolding head
Lacks-at d k [] rest l h e = omega (arith, h)
Lacks-at d zero (b ∷ tag) rest l h e = l.0 (ap head e)
Lacks-at d (suc k) (b ∷ tag) rest l h e = Lacks-at d k tag rest l.1 (omega (arith, h)) e

pub same_refl : (xs : List ℕ) → same xs xs ≡ true
unfolding same
same_refl [] = refl
same_refl (x ∷ xs) = let here : (x == x) ≡ true = ground arith in rw (here, same_refl xs) refl

-- The first of the positions that gives a result gives it.
pub find_map-Listed :
    (f : ℕ → Outcome (Option ℕ)) (p r : ℕ) (ps : List ℕ)
    → Ascends ps
    → Listed p ps
    → f p ≡ done (some r)
    → ((q : ℕ) → Listed q ps → q < p → f q ≡ done none)
    → find_map f ps ≡ done (some r)
unfolding find_map
find_map-Listed f p r _ a here e others = rw e refl
find_map-Listed f p r (q ∷ ps) a (there l) e others =
    rw (others q here (each_at (λ p. q < p) ps a.0 l))
      (find_map-Listed f p r ps a.1 l e (λ q l'. others q (there l')))

pub cons-take :
    (d n : ℕ) (xs : List ℕ) → take 1 xs ≡ d ∷ [] → take (suc n) xs ≡ d ∷ take n (drop 1 xs)
cons-take d n [] e = absurd (omega (arith, ap length e))
cons-take d n (x ∷ xs) e = ap (λ l. l ++ take n xs) e

pub closing-suc :
    (d q : ℕ) (tail : List ℕ)
    → suc q ≤ length tail
    → closing (d ∷ []) tail (suc q)
      ≡ done (if same (take 1 (drop q tail)) (d ∷ []) then some q else none)
unfolding closing
closing-suc d q tail h =
    let room : leb 1 (suc q) ≡ true = ground arith in
    let back : suc q - 1 ≡ q = omega arith in
    let one : suc q - q ≡ 1 = omega arith in
    let inside : (leb q (suc q) && leb (suc q) (length tail)) ≡ true = ground arith in
    rw (room, back, inside, one) refl
