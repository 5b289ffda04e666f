-- ===== src/Cli.antt =====
-- src/cli.rs: the parser of tagged arguments. The searches of the memchr crate are parameters.
pub mod Laws
pub mod Positions
pub mod Complete
pub mod Args
pub mod Line
pub mod Simulated
use embassy_sandbox.Prelude.{
  ℕ, ◌+◌, ◌-◌, Bool, true, false, ◌&&◌, Option, none, some, leb, ◌==◌, if◌then◌else◌,
}
use embassy_sandbox.Prelude.{List, [], ◌∷◌, length, take, drop, Outcome, done, panic, ◌>>=◌}

pub record Echo : Type 0 where
  pub echo : List ℕ

pub record Download : Type 0 where
  pub filename : List ℕ

pub data Command : Type 0 where
  echo : Echo → Command
  download : Download → Command

-- `memmem::find` and `memmem::find_iter`, of a haystack and a needle.
pub record Search : Type 0 where
  pub find : List ℕ → List ℕ → Option ℕ
  pub find_iter : List ℕ → List ℕ → List ℕ

-- nom's `IResult`: the input that is left and the output, or `Incomplete` or `Error`. The parsers that
-- are used give no `Failure`.
pub data Parse : Type 0 where
  parsed : List ℕ → List ℕ → Parse
  incomplete : Parse
  error : Parse

abbrev pub Parser : Type 0
Parser = List ℕ → Outcome Parse

-- The parsers and combinators of nom that are used.
pub record Nom : Type 0 where
  pub preceded : Parser → Parser → Parser
  pub alt : Parser → Parser → Parser
  pub complete : Parser → Parser
  pub multispace0 : Parser
  pub is_not : List ℕ → Parser

-- `==` on slices of bytes.
unfoldable pub same : List ℕ → List ℕ → Bool
same [] [] = true
same [] (y ∷ ys) = false
same (x ∷ xs) [] = false
same (x ∷ xs) (y ∷ ys) = (x == y) && same xs ys

-- `&xs[..n]`, `&xs[n..]` and `&xs[a..b]`.
abbrev pub slice_to : List ℕ → ℕ → Outcome (List ℕ)
slice_to xs n = if leb n (length xs) then done (take n xs) else panic

abbrev pub slice_from : List ℕ → ℕ → Outcome (List ℕ)
slice_from xs n = if leb n (length xs) then done (drop n xs) else panic

abbrev pub slice : List ℕ → ℕ → ℕ → Outcome (List ℕ)
slice xs a b = if leb a b && leb b (length xs) then done (take (b - a) (drop a xs)) else panic

-- The closure of `find_map`: where the closing delimiter begins if the tag at `tag_pos` ends it.
unfoldable pub closing : List ℕ → List ℕ → ℕ → Outcome (Option ℕ)
closing delim tail tag_pos =
    if leb (length delim) tag_pos
    then (do
      before ← slice tail (tag_pos - length delim) tag_pos
      done (if same before delim then some (tag_pos - length delim) else none))
    else done none

abbrev pub or_else : Outcome (Option ℕ) → Option ℕ → Outcome (Option ℕ)
or_else others none = others
or_else others (some q) = done (some q)

unfoldable pub find_map : (ℕ → Outcome (Option ℕ)) → List ℕ → Outcome (Option ℕ)
find_map f [] = done none
find_map f (p ∷ ps) = f p >>= or_else (find_map f ps)

-- What follows the search for the closing delimiter.
abbrev pub closed : List ℕ → List ℕ → List ℕ → Option ℕ → Outcome Parse
closed delim tag tail none = done incomplete
closed delim tag tail (some end_pos) = do
  rest ← slice_from tail (end_pos + length delim + length tag)
  out ← slice_to tail end_pos
  done (parsed rest out)

module _ (search : Search) where
  open search use {find, find_iter}

  -- What follows the search for the first delimiter.
  unfoldable pub tagged : List ℕ → List ℕ → Option ℕ → Outcome Parse
  tagged delim input none = done incomplete
  tagged delim input (some delim_pos) = do
    tag ← slice_to input delim_pos
    tail ← slice_from input (delim_pos + 1)
    end_pos ← find_map (closing delim tail) (find_iter tail tag)
    closed delim tag tail end_pos

  unfoldable pub tagged_delim : List ℕ → List ℕ → Outcome Parse
  tagged_delim delim input = tagged delim input (find input delim)

  -- The quotation mark is 34; the other bytes are space, tab, carriage return and line feed.
  unfoldable pub arg : Nom → Parser
  arg nom =
      nom.preceded nom.multispace0
        (nom.alt (nom.complete (tagged_delim (34 ∷ []))) (nom.is_not (32 ∷ 9 ∷ 13 ∷ 10 ∷ [])))
