-- ===== src/Cli/Args.antt =====
-- `arg` of src/cli.rs parses a tagged argument or a word, behind white space.
use embassy_sandbox.Prelude.{ℕ, ◌+◌, ◌*◌, ◌<◌, ◌≡◌, ◌≢◌, ◌⊎◌, inl, inr, refl, sym, ◌∙◌, ap, arith}
use embassy_sandbox.Prelude.{
  length-append, length-take, append-take-drop, drop-append, panic, starved,
}
use embassy_sandbox.Prelude.{List, [], ◌∷◌, ◌++◌, length, take, drop, Outcome, done, ◌>>=◌}
use embassy_sandbox.Cli.{Search, Parse, parsed, incomplete, error, Parser, Nom, tagged_delim, arg}
use embassy_sandbox.Cli.Laws.{Sound, Each, Framed, tagged_delim-Framed}
use embassy_sandbox.Cli.Positions.{Thorough, Lacks, NoneBefore, Lacks-at}
use embassy_sandbox.Cli.Complete.{input, tagged_delim-round_trip}

-- Space, tab, carriage return or line feed.
abbrev pub Space : ℕ → Type 0
Space b = (b ≡ 32) ⊎ (b ≡ 9) ⊎ (b ≡ 13) ⊎ (b ≡ 10)

-- The input goes on, and not by a space.
abbrev pub Starts : List ℕ → Type 0
Starts [] = ⊥
Starts (b ∷ bs) = Space b → ⊥

-- Some bytes that are not among the separators, and then one that is.
abbrev pub Word : List ℕ → List ℕ → ℕ → Type 0
Word separators word b =
    (0 < length word)
    × Each (λ c. Each (λ s. c ≢ s) separators) word
    × (Each (λ s. b ≢ s) separators → ⊥)

abbrev pub separators : List ℕ
separators = 32 ∷ 9 ∷ 13 ∷ 10 ∷ []

pub Word-Starts :
    (word : List ℕ) (b : ℕ) (rest : List ℕ) → Word separators word b → Starts (word ++ b ∷ rest)
Word-Starts [] b rest (long, others, ends) = absurd (omega (arith, long))
Word-Starts (c ∷ word) b rest (long, (others, more), ends) = λ space. elim space [
  | inl e ↦ others.0 e
  | inr (inl e) ↦ others.1.0 e
  | inr (inr (inl e)) ↦ others.1.1.0 e
  | inr (inr (inr e)) ↦ others.1.1.1.0 e
]

-- No argument with a tag and quotation marks begins the text.
abbrev pub Untagged : List ℕ → Type 0
Untagged text = (tag body rest : List ℕ) → text ≢ input 34 tag body rest

-- The first half of the text has no quotation mark.
pub Lacks-Untagged :
    (n : ℕ) (text : List ℕ) → length text < 2 * n + 2 → Lacks 34 (take n text) → Untagged text
Lacks-Untagged n text short lacks tag body rest e =
    let tail = body ++ 34 ∷ (tag ++ rest) in
    let lengths : length text ≡ length tag + length body + length tag + length rest + 2 = omega (
      arith,
      ap length e,
      length-append tag (34 ∷ tail),
      length-append body (34 ∷ (tag ++ rest)),
      length-append tag rest,
    ) in
    let inside : length tag < length (take n text) =
      omega (arith, short, lengths, length-take n text) in
    Lacks-at 34 (length tag) (take n text) (drop n text) lacks inside (
      ap (λ t. take 1 (drop (length tag) t)) (sym (append-take-drop n text) ∙ e)
      ∙ ap (take 1) (drop-append tag (34 ∷ tail)))

abbrev pub and_then : Parser → Parse → Outcome Parse
and_then second (parsed rest out) = second rest
and_then second incomplete = done incomplete
and_then second error = done error

abbrev pub or_try : Outcome Parse → Parse → Outcome Parse
or_try second (parsed rest out) = done (parsed rest out)
or_try second incomplete = done incomplete
or_try second error = second

abbrev pub completed : Parse → Outcome Parse
completed (parsed rest out) = done (parsed rest out)
completed incomplete = done error
completed error = done error

-- What nom documents of the combinators, and of its two parsers where they succeed.
pub record Documented (nom : Nom) : Type 0 where
  pub preceded_lem :
      (first second : Parser) (text : List ℕ)
      → nom.preceded first second text ≡ first text >>= and_then second
  pub alt_lem :
      (first second : Parser) (text : List ℕ)
      → nom.alt first second text ≡ first text >>= or_try (second text)
  pub complete_lem : (p : Parser) (text : List ℕ) → nom.complete p text ≡ p text >>= completed
  pub multispace0_lem :
      (spaces rest : List ℕ)
      → Each Space spaces
      → Starts rest
      → nom.multispace0 (spaces ++ rest) ≡ done (parsed rest spaces)
  pub is_not_lem :
      (separators word : List ℕ) (b : ℕ) (rest : List ℕ)
      → Word separators word b
      → nom.is_not separators (word ++ b ∷ rest) ≡ done (parsed (b ∷ rest) word)

module _ (search : Search) (nom : Nom) (documented : Documented nom) where
  -- Behind white space, `arg` is the alternative.
  arg-behind :
      (spaces rest : List ℕ)
      → Each Space spaces
      → Starts rest
      → arg search nom (spaces ++ rest)
        ≡ (tagged_delim search (34 ∷ []) rest >>= completed) >>= or_try (nom.is_not separators rest)
  unfolding arg
  arg-behind spaces rest s n =
      documented.preceded_lem nom.multispace0 _ (spaces ++ rest)
      ∙ rw (documented.multispace0_lem spaces rest s n) (
          documented.alt_lem (nom.complete (tagged_delim search (34 ∷ []))) _ rest
          ∙ ap (λ o. o >>= or_try (nom.is_not separators rest))
              (documented.complete_lem (tagged_delim search (34 ∷ [])) rest))

  -- With searches as memchr documents them and combinators as nom does: behind white space, `arg`
  -- parses an argument in quotation marks, with a tag, as `tagged_delim` does.
  pub arg-tagged :
      (thorough : Thorough search) (spaces tag body rest : List ℕ)
      → Each Space spaces
      → Starts (input 34 tag body rest)
      → Lacks 34 tag
      → NoneBefore (body ++ 34 ∷ (tag ++ rest)) (34 ∷ tag) (length body)
      → arg search nom (spaces ++ input 34 tag body rest) ≡ done (parsed rest body)
  arg-tagged thorough spaces tag body rest s n lacks before =
      arg-behind spaces (input 34 tag body rest) s n
      ∙ rw (tagged_delim-round_trip 34 tag body rest search thorough lacks before) refl

  no_argument :
      (text : List ℕ)
      → Untagged text
      → (o : Outcome Parse) → Framed (34 ∷ []) text o
      → (second : Outcome Parse) → (o >>= completed) >>= or_try second ≡ second
  no_argument text untagged (done (parsed rest out)) (tag, e) second =
      absurd (untagged tag out rest e)
  no_argument text untagged (done incomplete) f second = refl
  no_argument text untagged (done error) f second = refl
  no_argument text untagged panic f second = absurd f
  no_argument text untagged starved f second = absurd f

  -- With searches that find occurrences only, and combinators as nom documents them: behind white
  -- space, and if no tagged argument begins there, `arg` parses the word up to the next white space.
  pub arg-Word :
      (sound : Sound search) (spaces word : List ℕ) (b : ℕ) (rest : List ℕ)
      → Each Space spaces
      → Untagged (word ++ b ∷ rest)
      → Word separators word b
      → arg search nom (spaces ++ (word ++ b ∷ rest)) ≡ done (parsed (b ∷ rest) word)
  arg-Word sound spaces word b rest s untagged w =
      let text = word ++ b ∷ rest in
      arg-behind spaces text s (Word-Starts word b rest w)
      ∙ no_argument text untagged (tagged_delim search (34 ∷ []) text)
          (tagged_delim-Framed search sound (34 ∷ []) text refl) _
      ∙ documented.is_not_lem separators word b rest w
