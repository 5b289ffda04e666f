-- ===== src/Cli/Complete.antt =====
-- `tagged_delim` of src/cli.rs parses every argument that is tagged and delimited.
use embassy_sandbox.Prelude.{ℕ, zero, suc, ◌+◌, ◌-◌, ◌<◌, ◌≡◌, inl, inr, refl, sym, ◌∙◌, ap, arith}
use embassy_sandbox.Prelude.{
  true, none, some, List, [], ◌∷◌, ◌++◌, length, take, drop, leb, Bool-cases,
}
use embassy_sandbox.Prelude.{
  done, drop-drop, append-take-drop, length-append, drop-append, take-append,
}
use embassy_sandbox.Cli.{Search, parsed, same, closing, find_map, tagged, tagged_delim}
use embassy_sandbox.Cli.Laws.{Occurs, same-eq}
use embassy_sandbox.Cli.Positions.{
  Listed, Thorough, NoneBefore, Lacks, each_at, Lacks-at, same_refl, find_map-Listed, cons-take,
  closing-suc,
}

module _ (d : ℕ) (tag body rest : List ℕ) where
  -- The argument and what follows it, and all of the input.
  abbrev tail : List ℕ
  tail = body ++ d ∷ (tag ++ rest)

  abbrev pub input : List ℕ
  input = tag ++ d ∷ tail

  length-tail : length tail ≡ suc (length body + length tag + length rest)
  length-tail = omega (arith, length-append body (d ∷ (tag ++ rest)), length-append tag rest)

  drop-body : drop (length body) tail ≡ d ∷ (tag ++ rest)
  drop-body = drop-append body (d ∷ (tag ++ rest))

  drop-delimiter : drop (suc (length body)) tail ≡ tag ++ rest
  drop-delimiter =
      let next : suc (length body) ≡ length body + 1 = omega arith in
      ap (λ n. drop n tail) next ∙ sym (drop-drop (length body) 1 tail) ∙ ap (drop 1) drop-body

  tag-Occurs : Occurs tail tag (suc (length body))
  tag-Occurs = (
    omega (arith, length-tail),
    ap (take (length tag)) drop-delimiter ∙ take-append (length tag) tag rest refl,
  )

  closing-tag : closing (d ∷ []) tail (suc (length body)) ≡ done (some (length body))
  closing-tag =
      let before = ap (λ xs. same (take 1 xs) (d ∷ [])) drop-body ∙ same_refl (d ∷ []) in
      closing-suc d (length body) tail (omega (arith, length-tail)) ∙ rw before refl

  closing-before :
      (p : ℕ)
      → NoneBefore tail (d ∷ tag) (length body)
      → Occurs tail tag p
      → p < suc (length body)
      → closing (d ∷ []) tail p ≡ done none
  closing-before zero n o h = unfold closing in refl
  closing-before (suc q) n o h =
      closing-suc d q tail (omega (arith, o.0))
      ∙ elim (Bool-cases (same (take 1 (drop q tail)) (d ∷ []))) [
        | inl delimiter ↦
            let next : q + 1 ≡ suc q = omega arith in
            absurd (
              n q (omega (arith, h)) (
                omega (arith, o.0),
                cons-take d (length tag) (drop q tail) (same-eq _ _ delimiter)
                    ∙ ap (λ xs. d ∷ take (length tag) xs)
                        (drop-drop q 1 tail ∙ ap (λ n. drop n tail) next)
                    ∙ ap (λ xs. d ∷ xs) o.1,
              ))
        | inr other ↦ rw other refl
      ]

  -- The tag does not overlap with the delimiter.
  not_overlapping :
      (q : ℕ)
      → Lacks d tag
      → Occurs tail tag q
      → q < suc (length body)
      → suc (length body) < q + length tag
      → ⊥
  not_overlapping q lacks o h over =
      let k = length body - q in
      let at : q + k ≡ length body = omega (arith, h) in
      Lacks-at d k tag (drop (length tag) (drop q tail)) lacks (omega (arith, h, over)) (
        ap (λ xs. take 1 (drop k (xs ++ drop (length tag) (drop q tail)))) (sym o.1)
        ∙ ap (λ xs. take 1 (drop k xs)) (sym (append-take-drop (length tag) (drop q tail)))
        ∙ ap (take 1) (drop-drop q k tail ∙ ap (λ n. drop n tail) at ∙ drop-body))

  module _ (search : Search) (thorough : Thorough search) where
    found : Lacks d tag → search.find input (d ∷ []) ≡ some (length tag)
    found lacks =
        thorough.finds input (d ∷ []) (length tag)
          (omega (arith, length-append tag (d ∷ tail)), ap (take 1) (drop-append tag (d ∷ tail)))
          (λ q h o. Lacks-at d q tag (d ∷ tail) lacks h o.1)

    listed : Lacks d tag → Listed (suc (length body)) (search.find_iter tail tag)
    listed lacks = elim (thorough.lists tail tag (suc (length body)) tag-Occurs) [
      | inl l ↦ l
      | inr (q, l, h, over) ↦ absurd (
          not_overlapping q lacks
            (each_at (Occurs tail tag) (search.find_iter tail tag) (thorough.sound tail tag) l) h
            over)
    ]

    closes :
        Lacks d tag
        → NoneBefore tail (d ∷ tag) (length body)
        → find_map (closing (d ∷ []) tail) (search.find_iter tail tag) ≡ done (some (length body))
    closes lacks n =
        find_map-Listed (closing (d ∷ []) tail) (suc (length body)) (length body) _
          (thorough.ascends tail tag) (listed lacks) closing-tag
          (λ q l h.
            closing-before q n
              (each_at (Occurs tail tag) (search.find_iter tail tag) (thorough.sound tail tag) l) h)

    -- With searches as memchr documents them: an argument that stands between two delimiters of one
    -- byte, with a tag without that byte before the first and behind the second, is parsed, and what
    -- follows the tag is left, if the delimiter and the tag do not come together before its end.
    pub tagged_delim-round_trip :
        Lacks d tag
        → NoneBefore tail (d ∷ tag) (length body)
        → tagged_delim search (d ∷ []) input ≡ done (parsed rest body)
    unfolding tagged_delim tagged
    tagged_delim-round_trip lacks n =
        let front : leb (length tag) (length input) ≡ true =
          ground (arith, length-append tag (d ∷ tail)) in
        let back : leb (length tag + 1) (length input) ≡ true =
          ground (arith, length-append tag (d ∷ tail)) in
        let after : drop (length tag + 1) input ≡ tail =
          sym (drop-drop (length tag) 1 input) ∙ ap (drop 1) (drop-append tag (d ∷ tail)) in
        let fits : leb (length body + 1 + length tag) (length tail) ≡ true =
          ground (arith, length-tail) in
        let fits' : leb (length body) (length tail) ≡ true = ground (arith, length-tail) in
        let next : length body + 1 ≡ suc (length body) = omega arith in
        let left : drop (length body + 1 + length tag) tail ≡ rest =
          sym (drop-drop (length body + 1) (length tag) tail)
          ∙ ap (drop (length tag)) (ap (λ n. drop n tail) next ∙ drop-delimiter)
          ∙ drop-append tag rest in
        rw
          (
            found lacks,
            front,
            back,
            take-append (length tag) tag (d ∷ tail) refl,
            after,
            closes lacks n,
            fits,
            fits',
            left,
            take-append (length body) body (d ∷ (tag ++ rest)) refl,
          )
          refl
