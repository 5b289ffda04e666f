-- ===== src/Cli/Laws.antt =====
-- What `tagged_delim` of src/cli.rs takes as an argument.
use embassy_sandbox.Prelude.{ℕ, ◌+◌, ◌-◌, ◌≤◌, ◌≡◌, inl, inr, refl, sym, ◌∙◌, ap, ap₂, arith}
use embassy_sandbox.Prelude.{
  true, ◌&&◌, ◌==◌, Option, none, some, List, [], ◌∷◌, ◌++◌, length, take, drop, leb, Bool-cases,
}
use embassy_sandbox.Prelude.{Outcome, done, panic, starved, ◌>>=◌, drop-drop, append-take-drop}
use embassy_sandbox.Cli.{
  Search, Parse, parsed, incomplete, error, same, closing, or_else, find_map, closed, tagged,
  tagged_delim,
}

-- The second list stands at that position of the first.
abbrev pub Occurs : List ℕ → List ℕ → ℕ → Type 0
Occurs haystack needle p =
    (p + length needle ≤ length haystack) × (take (length needle) (drop p haystack) ≡ needle)

abbrev pub Found : List ℕ → List ℕ → Option ℕ → Type 0
Found haystack needle none = Unit
Found haystack needle (some p) = Occurs haystack needle p

abbrev pub Each : (ℕ → Type 0) → List ℕ → Type 0
Each P [] = Unit
Each P (p ∷ ps) = P p × Each P ps

-- The positions that the searches give are occurrences.
pub record Sound (search : Search) : Type 0 where
  pub find_lem : (haystack needle : List ℕ) → Found haystack needle (search.find haystack needle)
  pub find_iter_lem :
      (haystack needle : List ℕ) → Each (Occurs haystack needle) (search.find_iter haystack needle)

pub same-eq : (xs ys : List ℕ) → same xs ys ≡ true → xs ≡ ys
unfolding same
same-eq [] [] e = refl
same-eq [] (y ∷ ys) e = ground arith
same-eq (x ∷ xs) [] e = ground arith
same-eq (x ∷ xs) (y ∷ ys) e =
    let both : ((x == y) ≡ true) × (same xs ys ≡ true) = ground arith in
    let heads : x ≡ y = ground arith in ap₂ ◌∷◌ heads (same-eq xs ys both.1)

-- A position where the delimiter and the tag stand, one after the other.
abbrev Closes : List ℕ → List ℕ → List ℕ → Option ℕ → Type 0
Closes delim tag tail none = Unit
Closes delim tag tail (some q) = Occurs tail delim q × Occurs tail tag (q + length delim)

abbrev Ends : List ℕ → List ℕ → List ℕ → Outcome (Option ℕ) → Type 0
Ends delim tag tail (done q) = Closes delim tag tail q
Ends delim tag tail panic = ⊥
Ends delim tag tail starved = ⊥

closing-Ends :
    (delim tag tail : List ℕ) (p : ℕ)
    → Occurs tail tag p
    → Ends delim tag tail (closing delim tail p)
unfolding closing
closing-Ends delim tag tail p o = elim (Bool-cases (leb (length delim) p)) [
  | inl room ↦ rw room (
      let inside : (leb (p - length delim) p && leb p (length tail)) ≡ true = ground (arith, o.0) in
      let before = take (p - (p - length delim)) (drop (p - length delim) tail) in
      rw inside (elim (Bool-cases (same before delim)) [
        | inl equal ↦ rw equal (
            let q = p - length delim in
            let back : q + length delim ≡ p = ground (arith, room) in
            let size : p - q ≡ length delim = ground (arith, room) in
            (
              (
                omega (arith, back, o.0),
                ap (λ n. take n (drop q tail)) (sym size) ∙ same-eq before delim equal,
              ),
              (omega (arith, back, o.0), ap (λ n. take (length tag) (drop n tail)) back ∙ o.1),
            ))
        | inr other ↦ rw other tt
      ]))
  | inr short ↦ rw short tt
]

find_map-Ends :
    (delim tag tail ps : List ℕ)
    → Each (Occurs tail tag) ps
    → Ends delim tag tail (find_map (closing delim tail) ps)
unfolding find_map
find_map-Ends delim tag tail [] e = tt
find_map-Ends delim tag tail (p ∷ ps) e =
    choose (closing delim tail p) _ (closing-Ends delim tag tail p e.0)
      (find_map-Ends delim tag tail ps e.1)
  where
    choose :
        (o others : Outcome (Option ℕ))
        → Ends delim tag tail o
        → Ends delim tag tail others
        → Ends delim tag tail (o >>= or_else others)
    choose (done none) others a b = b
    choose (done (some q)) others a b = a
    choose panic others a b = a
    choose starved others a b = a

split_at :
    (xs needle : List ℕ) (p : ℕ)
    → Occurs xs needle p
    → xs ≡ take p xs ++ (needle ++ drop (p + length needle) xs)
split_at xs needle p o =
    append-take-drop p xs
    ∙ ap (λ r. take p xs ++ r)
        (append-take-drop (length needle) (drop p xs)
          ∙ ap₂ ◌++◌ o.1 (drop-drop p (length needle) xs))

-- A parsed argument stands between two delimiters, with the same tag before the first and behind the
-- second.
abbrev pub Framed : List ℕ → List ℕ → Outcome Parse → Type 0
Framed delim input (done (parsed rest out)) =
    (tag : List ℕ) × (input ≡ tag ++ (delim ++ (out ++ (delim ++ (tag ++ rest)))))
Framed delim input (done incomplete) = Unit
Framed delim input (done error) = Unit
Framed delim input panic = ⊥
Framed delim input starved = ⊥

module _ (delim input : List ℕ) (k : ℕ) (o : Occurs input delim k) where
  abbrev tag : List ℕ
  tag = take k input

  abbrev tail : List ℕ
  tail = drop (k + length delim) input

  closed-Framed :
      (q : Option ℕ) → Closes delim tag tail q → Framed delim input (closed delim tag tail q)
  closed-Framed none c = tt
  closed-Framed (some q) c =
      let end_pos = q + length delim + length tag in
      let fits : leb end_pos (length tail) ≡ true = ground (arith, c.1.0) in
      let fits' : leb q (length tail) ≡ true = ground (arith, c.1.0) in
      let after = drop (q + length delim) tail in
      rw (fits, fits')
        (
          tag,
          split_at input delim k o
              ∙ ap (λ r. tag ++ (delim ++ r))
                  (split_at tail delim q c.0
                    ∙ ap (λ r. take q tail ++ (delim ++ r))
                        (append-take-drop (length tag) after
                          ∙ ap₂ ◌++◌ c.1.1 (drop-drop (q + length delim) (length tag) tail))),
        )

module _ (search : Search) (sound : Sound search) where
  tagged-Framed :
      (delim input : List ℕ) (k : Option ℕ)
      → length delim ≡ 1
      → Found input delim k
      → Framed delim input (tagged search delim input k)
  unfolding tagged
  tagged-Framed delim input none single o = tt
  tagged-Framed delim input (some k) single o =
      let tail' = drop (k + length delim) input in
      let ends =
        find_map-Ends delim (take k input) tail' (search.find_iter tail' (take k input))
          (sound.find_iter_lem tail' (take k input)) in
      let fits : leb k (length input) ≡ true = ground (arith, o.0) in
      let fits' : leb (k + 1) (length input) ≡ true = ground (arith, o.0) in
      rw (fits, fits', sym single) (goes delim input k o _ ends)
    where
      goes :
          (delim input : List ℕ) (k : ℕ) (o : Occurs input delim k) (e : Outcome (Option ℕ))
          → Ends delim (tag delim input k o) (tail delim input k o) e
          → Framed delim input (e >>= closed delim (tag delim input k o) (tail delim input k o))
      goes delim input k o (done q) c = closed-Framed delim input k o q c
      goes delim input k o panic c = c
      goes delim input k o starved c = c

  -- With a delimiter of one byte and searches that find occurrences only, `tagged_delim` does not
  -- panic; if it parses an argument, that stands between two delimiters, with the same tag before
  -- the first and behind the second, and what is left is what follows the tag.
  pub tagged_delim-Framed :
      (delim input : List ℕ)
      → length delim ≡ 1
      → Framed delim input (tagged_delim search delim input)
  unfolding tagged_delim
  tagged_delim-Framed delim input single =
      tagged-Framed delim input (search.find input delim) single (sound.find_lem input delim)
