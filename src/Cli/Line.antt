-- ===== src/Cli/Line.antt =====
-- The calls of `arg` of src/cli.rs on a line of arguments, each on what the one before has left, as
-- its tests make them.
use embassy_sandbox.Prelude.{ℕ, ◌≡◌, refl, sym, ◌∙◌, ap, List, [], ◌∷◌, ◌++◌, length, map, done}
use embassy_sandbox.Cli.{Search, parsed, Nom, arg}
use embassy_sandbox.Cli.Laws.{Sound, Each}
use embassy_sandbox.Cli.Positions.{Thorough, Lacks, NoneBefore}
use embassy_sandbox.Cli.Complete.{input}
use embassy_sandbox.Cli.Args.{
  Space, Starts, Word, separators, Untagged, Documented, arg-tagged, arg-Word,
}

-- An argument as it stands on a line: with a tag and quotation marks, or bare.
pub data Token : Type 0 where
  quoted : List ℕ → List ℕ → Token
  bare : List ℕ → Token

abbrev pub text : Token → List ℕ
text (quoted tag body) = body
text (bare word) = word

-- Arguments, with the white space in front of each.
abbrev pub Line : Type 0
Line = List (List ℕ × Token)

abbrev pub texts : Line → List (List ℕ)
texts line = map (λ l. text l.1) line

unfoldable pub print : Line → List ℕ → List ℕ
print [] rest = rest
print ((spaces, quoted tag body) ∷ line) rest = spaces ++ input 34 tag body (print line rest)
print ((spaces, bare word) ∷ line) rest = spaces ++ (word ++ print line rest)

-- An argument can be told from what follows it.
abbrev Clear : Token → List ℕ → Type 0
Clear (quoted tag body) after =
    Starts (input 34 tag body after)
    × Lacks 34 tag
    × NoneBefore (body ++ 34 ∷ (tag ++ after)) (34 ∷ tag) (length body)
Clear (bare word) after =
    (b : ℕ) × (more : List ℕ) × (after ≡ b ∷ more)
    × Word separators word b
    × Untagged (word ++ b ∷ more)

abbrev pub Readable : Line → List ℕ → Type 0
Readable [] rest = Unit {0}
Readable ((spaces, token) ∷ line) rest =
    Each Space spaces × Clear token (print line rest) × Readable line rest

module _ (search : Search) (nom : Nom) where
  -- The calls of `arg` give these, and leave that.
  abbrev pub Gives : List ℕ → List (List ℕ) → List ℕ → Type 0
  Gives line [] rest = line ≡ rest
  Gives line (out ∷ outs) rest =
      (next : List ℕ) × (arg search nom line ≡ done (parsed next out)) × Gives next outs rest

  module _ (documented : Documented nom) (thorough : Thorough search) (sound : Sound search) where
    -- With searches as memchr documents them and combinators as nom does: if each argument of a
    -- line stands behind white space and can be told from what follows it, the calls of `arg` give
    -- the arguments in order and leave what follows the line. One in quotation marks can be told if
    -- its tag, or without a tag its mark, does not begin with white space, the tag has no quotation
    -- mark, and the mark and the tag do not come together before its end; a bare one if it has no
    -- white space, white space follows, and no tagged argument begins with it.
    pub print-Gives :
        (line : Line) (rest : List ℕ)
        → Readable line rest
        → Gives (print line rest) (texts line) rest
    unfolding print
    print-Gives [] rest r = refl
    print-Gives ((spaces, quoted tag body) ∷ line) rest (space, (starts, lacks, before), readable) =
        (
          print line rest,
          arg-tagged search nom documented thorough spaces tag body (print line rest) space starts
              lacks before,
          print-Gives line rest readable,
        )
    print-Gives ((spaces, bare word) ∷ line) rest
          (space, (b, more, follows, ends, untagged), readable) =
        (
          print line rest,
          ap (λ t. arg search nom (spaces ++ (word ++ t))) follows
              ∙ arg-Word search nom documented sound spaces word b more space untagged ends
              ∙ ap (λ t. done (parsed t word)) (sym follows),
          print-Gives line rest readable,
        )
