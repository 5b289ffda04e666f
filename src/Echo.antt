-- ===== src/Echo.antt =====
-- The session of the echo server of src/main.rs: each chunk of bytes is answered by its digits.
pub mod Laws
pub mod Answers
pub mod Server
pub mod Start
pub mod Network
pub mod Dhcp
use embassy_sandbox.Prelude.{
  ℕ, zero, suc, ◌+◌, ◌/◌, ◌%◌, Bool, Option, none, some, leb, ltb, if◌then◌else◌,
}
use embassy_sandbox.Prelude.{
  List, [], ◌∷◌, ◌++◌, length, Outcome, done, panic, starved, expect, ◌>>=◌,
}

-- The connection: `Err(_)` is `none`.
pub record Socket : Type 1 where
  pub World : Type 0
  pub read : ℕ → World → Option (List ℕ) × World
  pub write_all : List ℕ → World → Option (Unit {0}) × World

-- The lengths of `buf` and of `fmt`.
abbrev pub buf_length : ℕ
buf_length = 512

abbrev pub capacity : ℕ
capacity = 1026

-- `{:02x}` of a byte, as characters.
abbrev pub digit : ℕ → ℕ
digit d = if ltb d 10 then 48 + d else 87 + d

abbrev pub hex : ℕ → List ℕ
hex n = digit (n / 16) ∷ digit (n % 16) ∷ []

abbrev pub crlf : List ℕ
crlf = 13 ∷ 10 ∷ []

-- `write_fmt` and `write_str` of a string of limited capacity.
abbrev pub push : List ℕ → List ℕ → Option (List ℕ)
push fmt text = if leb (length fmt + length text) capacity then some (fmt ++ text) else none

unfoldable pub format : List ℕ → List ℕ → Outcome (List ℕ)
format fmt [] = expect (push fmt crlf)
format fmt (n ∷ buf) = do fmt' ← expect (push fmt (hex n)); format fmt' buf

module _ (socket : Socket) where
  open socket use {World, read, write_all}

  abbrev pub answered : (World → Outcome World) → Option (Unit {0}) × World → Outcome World
  answered go (none, w) = done w
  answered go (some t, w) = go w

  -- What follows a read; `fmt` is empty whenever a chunk is read.
  abbrev pub chunk : (World → Outcome World) → Option (List ℕ) × World → Outcome World
  chunk go (none, w) = done w
  chunk go (some [], w) = done w
  chunk go (some (b ∷ buf), w) = do fmt ← format [] (b ∷ buf); answered go (write_all fmt w)

  -- The inner loop, which ends by `break`, for at most that many chunks.
  unfoldable pub session : ℕ → World → Outcome World
  session zero w = starved
  session (suc n) w = chunk (session n) (read buf_length w)
