-- ===== src/Cli/Simulated.antt =====
-- Searches that try every position, in place of those of the memchr crate that src/cli.rs calls.
pub mod Combinators
use embassy_sandbox.Prelude.{
  ℕ, zero, suc, ◌+◌, ◌≤◌, ◌<◌, ◌≡◌, refl, le_or_lt, Bool, true, ◌&&◌, Option, none, some, List, [],
  ◌∷◌, length, take, drop, leb, inl, inr, Bool-cases, if◌then◌else◌, arith,
}
use embassy_sandbox.Cli.{Search, same}
use embassy_sandbox.Cli.Laws.{Occurs, Sound, Found, Each, same-eq}
use embassy_sandbox.Cli.Positions.{Thorough, Listed, Ascends, NoneBefore, same_refl, each_at}

unfoldable pub occurs : List ℕ → List ℕ → ℕ → Bool
unfolding same
occurs haystack needle p =
    leb (p + length needle) (length haystack)
    && same (take (length needle) (drop p haystack)) needle

-- The occurrences among the `n` positions from `p` on.
unfoldable pub occurrences : List ℕ → List ℕ → ℕ → ℕ → List ℕ
unfolding occurs
occurrences haystack needle p zero = []
occurrences haystack needle p (suc n) =
    let rest = occurrences haystack needle (suc p) n in
    if occurs haystack needle p then p ∷ rest else rest

abbrev first : List ℕ → Option ℕ
first [] = none
first (p ∷ ps) = some p

unfoldable pub tried : List ℕ → List ℕ → List ℕ
unfolding occurrences
tried haystack needle = occurrences haystack needle 0 (suc (length haystack))

abbrev pub naive : Search
naive = record { find = λ haystack needle. first (tried haystack needle); find_iter = tried }

occurs-Occurs :
    (haystack needle : List ℕ) (p : ℕ) → occurs haystack needle p ≡ true → Occurs haystack needle p
unfolding occurs
occurs-Occurs haystack needle p e =
    let both : (leb (p + length needle) (length haystack) ≡ true)
        × (same (take (length needle) (drop p haystack)) needle ≡ true) =
      ground arith in
    (ground (arith, both.0), same-eq _ needle both.1)

occurrences-Occurs :
    (haystack needle : List ℕ) (p n : ℕ)
    → Each (Occurs haystack needle) (occurrences haystack needle p n)
unfolding occurrences
occurrences-Occurs haystack needle p zero = tt
occurrences-Occurs haystack needle p (suc n) =
    let rest = occurrences-Occurs haystack needle (suc p) n in
    elim (Bool-cases (occurs haystack needle p)) [
      | inl here ↦ rw here (occurs-Occurs haystack needle p here, rest)
      | inr other ↦ rw other rest
    ]

first-Found :
    (haystack needle ps : List ℕ)
    → Each (Occurs haystack needle) ps
    → Found haystack needle (first ps)
first-Found haystack needle [] e = tt
first-Found haystack needle (p ∷ ps) e = e.0

pub naive-Sound : Sound naive
unfolding tried
naive-Sound = record {
  find_lem = λ haystack needle.
      first-Found haystack needle _ (occurrences-Occurs haystack needle 0 (suc (length haystack)));
  find_iter_lem = λ haystack needle. occurrences-Occurs haystack needle 0 (suc (length haystack));
}

-- The positions from `p` on.
occurrences-Each :
    (haystack needle : List ℕ) (p n k : ℕ)
    → k ≤ p
    → Each (λ q. k ≤ q) (occurrences haystack needle p n)
unfolding occurrences
occurrences-Each haystack needle p zero k h = tt
occurrences-Each haystack needle p (suc n) k h =
    let rest = occurrences-Each haystack needle (suc p) n k (omega (arith, h)) in
    elim (Bool-cases (occurs haystack needle p)) [
      | inl at ↦ rw at (h, rest)
      | inr other ↦ rw other rest
    ]

occurrences-Ascends :
    (haystack needle : List ℕ) (p n : ℕ) → Ascends (occurrences haystack needle p n)
unfolding occurrences
occurrences-Ascends haystack needle p zero = tt
occurrences-Ascends haystack needle p (suc n) =
    let rest = occurrences-Ascends haystack needle (suc p) n in
    elim (Bool-cases (occurs haystack needle p)) [
      | inl at ↦ rw at (occurrences-Each haystack needle (suc p) n (suc p) (omega arith), rest)
      | inr other ↦ rw other rest
    ]

Occurs-occurs :
    (haystack needle : List ℕ) (p : ℕ) → Occurs haystack needle p → occurs haystack needle p ≡ true
unfolding occurs
Occurs-occurs haystack needle p o =
    let fits : leb (p + length needle) (length haystack) ≡ true = ground (arith, o.0) in
    rw (fits, o.1) (same_refl needle)

occurrences-Listed :
    (haystack needle : List ℕ) (p n q : ℕ)
    → Occurs haystack needle q
    → p ≤ q
    → q < p + n
    → Listed q (occurrences haystack needle p n)
unfolding occurrences
occurrences-Listed haystack needle p zero q o h h' = absurd (omega (arith, h, h'))
occurrences-Listed haystack needle p (suc n) q o h h' = elim (le_or_lt q p) [
  | inl at ↦
      let same_place : p ≡ q = omega (arith, at, h) in
      rw (same_place, Occurs-occurs haystack needle q o) Listed.here
  | inr after ↦
      let rest = occurrences-Listed haystack needle (suc p) n q o after (omega (arith, h')) in
      elim (Bool-cases (occurs haystack needle p)) [
        | inl other ↦ rw other (Listed.there rest)
        | inr other ↦ rw other rest
      ]
]

first-finds :
    (haystack needle ps : List ℕ) (p : ℕ)
    → Each (Occurs haystack needle) ps
    → Ascends ps
    → Listed p ps
    → NoneBefore haystack needle p
    → first ps ≡ some p
first-finds haystack needle _ p e a Listed.here n = refl
first-finds haystack needle (q ∷ ps) p e a (Listed.there l) n =
    absurd (n q (each_at (λ p. q < p) ps a.0 l) e.0)

pub naive-Thorough : Thorough naive
unfolding tried
naive-Thorough = record {
  finds = λ haystack needle p o n.
      first-finds haystack needle _ p (occurrences-Occurs haystack needle 0 (suc (length haystack)))
        (occurrences-Ascends haystack needle 0 (suc (length haystack)))
        (occurrences-Listed haystack needle 0 (suc (length haystack)) p o (omega arith)
          (omega (arith, o.0)))
        n;
  ascends = λ haystack needle. occurrences-Ascends haystack needle 0 (suc (length haystack));
  sound = λ haystack needle. occurrences-Occurs haystack needle 0 (suc (length haystack));
  lists = λ haystack needle p o. inl (
      occurrences-Listed haystack needle 0 (suc (length haystack)) p o (omega arith)
        (omega (arith, o.0)));
}
