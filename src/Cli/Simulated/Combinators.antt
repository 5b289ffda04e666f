-- ===== src/Cli/Simulated/Combinators.antt =====
-- Combinators and parsers in place of those of nom that src/cli.rs calls.
use embassy_sandbox.Prelude.{
  ℕ, ◌≡◌, ◌≢◌, inl, inr, refl, arith, Bool, true, false, ◌==◌, ◌||◌, Bool-cases, if◌then◌else◌,
}
use embassy_sandbox.Prelude.{List, [], ◌∷◌, ◌++◌, done, ◌>>=◌}
use embassy_sandbox.Cli.{Parse, parsed, incomplete, error, Nom}
use embassy_sandbox.Cli.Laws.{Each}
use embassy_sandbox.Cli.Args.{Space, Starts, Word, and_then, or_try, completed, Documented}

unfoldable pub among : ℕ → List ℕ → Bool
among b [] = false
among b (s ∷ separators) = (b == s) || among b separators

abbrev before : ℕ → Parse → Parse
before b (parsed rest out) = parsed rest (b ∷ out)
before b incomplete = incomplete
before b error = error

-- Up to a byte that is, or is not, among the separators.
unfoldable pub span : Bool → List ℕ → List ℕ → Parse
unfolding among
span inside separators [] = incomplete
span true separators (b ∷ bs) =
    let rest = span true separators bs in
    if among b separators then before b rest else parsed (b ∷ bs) []
span false separators (b ∷ bs) =
    let rest = span false separators bs in
    if among b separators then parsed (b ∷ bs) [] else before b rest

abbrev not_empty : Parse → Parse
not_empty (parsed rest []) = error
not_empty (parsed rest (b ∷ out)) = parsed rest (b ∷ out)
not_empty incomplete = incomplete
not_empty error = error

abbrev white : List ℕ
white = 32 ∷ 9 ∷ 13 ∷ 10 ∷ []

abbrev pub nom : Nom
nom = record {
  preceded = λ first second text. first text >>= and_then second;
  alt = λ first second text. first text >>= or_try (second text);
  complete = λ p text. p text >>= completed;
  multispace0 = λ text. done (span true white text);
  is_not = λ separators text. done (not_empty (span false separators text));
}

Space-among : (b : ℕ) → Space b → among b white ≡ true
unfolding among
Space-among b s = ground arith

among-Space : (b : ℕ) → (Space b → ⊥) → among b white ≡ false
unfolding among
among-Space b n = ground arith

among-Each :
    (b : ℕ) (separators : List ℕ) → Each (λ s. b ≢ s) separators → among b separators ≡ false
unfolding among
among-Each b [] e = refl
among-Each b (s ∷ separators) e =
    let other : (b == s) ≡ false = ground (arith, e.0) in
    rw (other, among-Each b separators e.1) refl

Each-among :
    (b : ℕ) (separators : List ℕ) → among b separators ≡ false → Each (λ s. b ≢ s) separators
unfolding among
Each-among b [] e = tt
Each-among b (s ∷ separators) e =
    let both : ((b == s) ≡ false) × (among b separators ≡ false) = ground arith in
    ((λ same. ground (arith, same, both.0)), Each-among b separators both.1)

span-spaces :
    (spaces rest : List ℕ)
    → Each Space spaces
    → Starts rest
    → span true white (spaces ++ rest) ≡ parsed rest spaces
unfolding span
span-spaces [] [] s n = absurd n
span-spaces [] (b ∷ rest) s n = rw (among-Space b n) refl
span-spaces (b ∷ spaces) rest s n = rw (Space-among b s.0, span-spaces spaces rest s.1 n) refl

span-word :
    (separators word : List ℕ) (b : ℕ) (rest : List ℕ)
    → Each (λ c. Each (λ s. c ≢ s) separators) word
    → among b separators ≡ true
    → span false separators (word ++ b ∷ rest) ≡ parsed (b ∷ rest) word
unfolding span
span-word separators [] b rest w e = rw e refl
span-word separators (c ∷ word) b rest w e =
    rw (among-Each c separators w.0, span-word separators word b rest w.1 e) refl

pub nom-Documented : Documented nom
nom-Documented = record {
  preceded_lem = λ first second text. refl;
  alt_lem = λ first second text. refl;
  complete_lem = λ p text. refl;
  multispace0_lem = λ spaces rest s n. rw (span-spaces spaces rest s n) refl;
  is_not_lem = λ separators word b rest w. words separators word b rest w;
}
  where
    words :
        (separators word : List ℕ) (b : ℕ) (rest : List ℕ)
        → Word separators word b
        → nom.is_not separators (word ++ b ∷ rest) ≡ done (parsed (b ∷ rest) word)
    words separators [] b rest w = absurd (omega (arith, w.0))
    words separators (c ∷ word) b rest w = elim (Bool-cases (among b separators)) [
      | inl e ↦ rw (span-word separators (c ∷ word) b rest w.1 e) refl
      | inr e ↦ absurd (w.2 (Each-among b separators e))
    ]
