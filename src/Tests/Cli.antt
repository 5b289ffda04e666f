-- ===== src/Tests/Cli.antt =====
-- Runs of the model of src/cli.rs, and its theorem at a concrete input.
use embassy_sandbox.Prelude.{
  ℕ, zero, suc, ◌≡◌, refl, inl, ap, arith, get_or, List, [], ◌∷◌, ◌++◌, codes, done,
}
use embassy_sandbox.Cli.{parsed, same, closing, find_map, tagged, tagged_delim, arg}
use embassy_sandbox.Cli.Positions.{Lacks, NoneBefore}
use embassy_sandbox.Cli.Complete.{tagged_delim-round_trip}
use embassy_sandbox.Cli.Args.{arg-Word, Word, separators, Untagged, Lacks-Untagged}
use embassy_sandbox.Cli.Line.{Token, Line, print, Readable, Gives, print-Gives}
use embassy_sandbox.Cli.Simulated.Combinators.{nom, nom-Documented}
use embassy_sandbox.Cli.Laws.{Framed, tagged_delim-Framed}
use embassy_sandbox.Cli.Simulated.{occurs, occurrences, tried, naive, naive-Sound, naive-Thorough}

-- a"b"c"ad, where the quotation mark is 34.
abbrev text : List ℕ
text = 97 ∷ 34 ∷ 98 ∷ 34 ∷ 99 ∷ 34 ∷ 97 ∷ 100 ∷ []

-- The mark within the argument does not end it.
tagged_delim_run : tagged_delim naive (34 ∷ []) text ≡ done (parsed (100 ∷ []) (98 ∷ 34 ∷ 99 ∷ []))
unfolding same closing find_map tagged tagged_delim occurs occurrences tried
tagged_delim_run = refl

tagged_delim-Framed_example : Framed (34 ∷ []) text (tagged_delim naive (34 ∷ []) text)
tagged_delim-Framed_example = tagged_delim-Framed naive naive-Sound (34 ∷ []) text refl

-- A tag of one byte, and an argument with a mark that the tag does not follow.
NoneBefore-text : NoneBefore (98 ∷ 34 ∷ 99 ∷ 34 ∷ 97 ∷ 100 ∷ []) (34 ∷ 97 ∷ []) 3
NoneBefore-text zero h o = absurd (omega (arith, ap (λ xs. get_or xs 0 0) o.1))
NoneBefore-text (suc zero) h o = absurd (omega (arith, ap (λ xs. get_or xs 1 0) o.1))
NoneBefore-text (suc (suc zero)) h o = absurd (omega (arith, ap (λ xs. get_or xs 0 0) o.1))
NoneBefore-text (suc (suc (suc q))) h o = omega (arith, h)

Lacks-tag : Lacks 34 (97 ∷ [])
Lacks-tag = (λ e. omega (arith, e), tt)

tagged_delim-round_trip_example :
    tagged_delim naive (34 ∷ []) text ≡ done (parsed (100 ∷ []) (98 ∷ 34 ∷ 99 ∷ []))
tagged_delim-round_trip_example =
    tagged_delim-round_trip 34 (97 ∷ []) (98 ∷ 34 ∷ 99 ∷ []) (100 ∷ []) naive naive-Thorough
      Lacks-tag NoneBefore-text

ab-Word : Word separators (97 ∷ 98 ∷ []) 9
ab-Word = (omega arith, ground arith, (λ e. e.1.0 refl))

arg-Word_example :
    arg naive nom (32 ∷ 97 ∷ 98 ∷ 9 ∷ 99 ∷ []) ≡ done (parsed (9 ∷ 99 ∷ []) (97 ∷ 98 ∷ []))
arg-Word_example =
    arg-Word naive nom nom-Documented naive-Sound (32 ∷ []) (97 ∷ 98 ∷ []) 9 (99 ∷ [])
      (inl refl, tt) (Lacks-Untagged 4 (97 ∷ 98 ∷ 9 ∷ 99 ∷ []) (omega arith) (ground arith)) ab-Word

-- lorem "c" e, and the end of the line.
abbrev lorem : List ℕ
lorem = codes "lorem"

abbrev line : Line
line =
    (32 ∷ [], Token.bare lorem)
    ∷ (32 ∷ [], Token.quoted [] (99 ∷ []))
    ∷ (32 ∷ [], Token.bare (101 ∷ []))
    ∷ []

first-Untagged : Untagged (lorem ++ 32 ∷ 34 ∷ 99 ∷ 34 ∷ 32 ∷ 101 ∷ 10 ∷ [])
first-Untagged =
    Lacks-Untagged 6 (lorem ++ 32 ∷ 34 ∷ 99 ∷ 34 ∷ 32 ∷ 101 ∷ 10 ∷ []) (omega arith) (ground arith)

mark-NoneBefore : NoneBefore (99 ∷ 34 ∷ 32 ∷ 101 ∷ 10 ∷ []) (34 ∷ []) 1
mark-NoneBefore zero h o = absurd (omega (arith, ap (λ xs. get_or xs 0 0) o.1))
mark-NoneBefore (suc q) h o = omega (arith, h)

lorem-Word : Word separators lorem 32
lorem-Word = (omega arith, ground arith, (λ e. e.0 refl))

e-Word : Word separators (101 ∷ []) 10
e-Word = (omega arith, ground arith, (λ e. e.1.1.1.0 refl))

line-Readable : Readable line (10 ∷ [])
unfolding print
line-Readable = (
  (inl refl, tt),
  (32, 34 ∷ 99 ∷ 34 ∷ 32 ∷ 101 ∷ 10 ∷ [], refl, lorem-Word, first-Untagged),
  (
    (inl refl, tt),
    ((λ s. ground (arith, s)), tt, mark-NoneBefore),
    (
      (inl refl, tt),
      (10, [], refl, e-Word, Lacks-Untagged 2 (101 ∷ 10 ∷ []) (omega arith) (ground arith)),
      tt,
    ),
  ),
)

print-Gives_example :
    Gives naive nom (print line (10 ∷ [])) (lorem ∷ (99 ∷ []) ∷ (101 ∷ []) ∷ []) (10 ∷ [])
print-Gives_example =
    print-Gives naive nom nom-Documented naive-Thorough naive-Sound line (10 ∷ []) line-Readable
