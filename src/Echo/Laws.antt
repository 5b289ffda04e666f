-- ===== src/Echo/Laws.antt =====
-- What the echo server of src/main.rs answers, and that its buffer is large enough.
use embassy_sandbox.Prelude.{
  ℕ, zero, suc, ◌+◌, ◌*◌, ◌-◌, ◌/◌, ◌%◌, ◌≤◌, ◌<◌, ◌≡◌, refl, sym, ◌∙◌, ap, ap₂, arith, true,
  Option, none, some, leb, ltb, if◌then◌else◌,
}
use embassy_sandbox.Prelude.{
  List, [], ◌∷◌, ◌++◌, length, length-append, Outcome, done, panic, starved,
}
use mathlib.Core.List.{append_assoc}
use embassy_sandbox.Echo.{
  Socket, buf_length, capacity, digit, hex, crlf, push, format, answered, chunk, session,
}

-- The digits of all bytes, then the end of the line.
abbrev pub line : List ℕ → List ℕ
line [] = crlf
line (n ∷ buf) = hex n ++ line buf

push-fits :
    (fmt text : List ℕ) → length fmt + length text ≤ capacity → push fmt text ≡ some (fmt ++ text)
push-fits fmt text h =
    let fits : leb (length fmt + length text) capacity ≡ true = ground arith in rw fits refl

pub format-line :
    (fmt buf : List ℕ)
    → length fmt + 2 * length buf + 2 ≤ capacity
    → format fmt buf ≡ done (fmt ++ line buf)
unfolding format
format-line fmt [] h = rw (push-fits fmt crlf (omega arith)) refl
format-line fmt (n ∷ buf) h = rw (push-fits fmt (hex n) (omega arith)) (
    format-line (fmt ++ hex n) buf (omega (arith, length-append fmt (hex n)))
    ∙ ap done (append_assoc fmt (hex n) (line buf)))

-- The bytes that a line of digits stands for.
abbrev value : ℕ → ℕ
value c = if ltb c 58 then c - 48 else c - 87

abbrev pub bytes_of : List ℕ → List ℕ
bytes_of (h ∷ l ∷ b ∷ cs) = (value h * 16 + value l) ∷ bytes_of (b ∷ cs)
bytes_of _ = []

abbrev pub Bytes : List ℕ → Type 0
Bytes [] = Unit
Bytes (b ∷ bs) = (b < 256) × Bytes bs

value-digit : (d : ℕ) → d < 16 → value (digit d) ≡ d
value-digit d h = ground arith

line-nonempty : (buf : List ℕ) → (b : ℕ) × (cs : List ℕ) × (line buf ≡ b ∷ cs)
line-nonempty [] = (13, 10 ∷ [], refl)
line-nonempty (n ∷ buf) = (digit (n / 16), digit (n % 16) ∷ line buf, refl)

bytes_of-line : (buf : List ℕ) → Bytes buf → bytes_of (line buf) ≡ buf
bytes_of-line [] h = refl
bytes_of-line (n ∷ buf) h =
    let (b, cs, e) = line-nonempty buf in
    let high = value-digit (n / 16) (omega (arith, h.0)) in
    let low = value-digit (n % 16) (omega arith) in
    let rest : bytes_of (b ∷ cs) ≡ buf = ap bytes_of (sym e) ∙ bytes_of-line buf h.1 in
    ap (λ r. bytes_of (digit (n / 16) ∷ digit (n % 16) ∷ r)) e
    ∙ ap₂ ◌∷◌ (omega (arith, high, low)) rest

-- The answer to a chunk of bytes that fits the buffer is made without a panic, and its characters
-- but for the end of the line are the digits of those bytes: they stand for the bytes.
pub format-round_trip :
    (buf : List ℕ)
    → length buf ≤ buf_length
    → Bytes buf
    → (format [] buf ≡ done (line buf)) × (bytes_of (line buf) ≡ buf)
format-round_trip buf fits bytes = (format-line [] buf (omega arith), bytes_of-line buf bytes)

module _ (socket : Socket) where
  open socket use {World, read, write_all}

  -- At most as many bytes as there is room for.
  abbrev pub Short : Option (List ℕ) × World → Type 0
  Short (none, w) = Unit
  Short (some bytes, w) = length bytes ≤ buf_length

  -- A session ends or goes on.
  abbrev pub Calm : Outcome World → Type 0
  Calm (done w) = Unit
  Calm panic = ⊥
  Calm starved = Unit

  chunk-Calm :
      (go : World → Outcome World) (r : Option (List ℕ) × World)
      → Short r
      → ((w : World) → Calm (go w))
      → Calm (chunk socket go r)
  chunk-Calm go (none, w) s h = tt
  chunk-Calm go (some [], w) s h = tt
  chunk-Calm go (some (b ∷ buf), w) s h =
      rw (format-line [] (b ∷ buf) (omega arith)) (calm (write_all (line (b ∷ buf)) w) h)
    where
      calm :
          (r : Option (Unit {0}) × World)
          → ((w : World) → Calm (go w))
          → Calm (answered socket go r)
      calm (none, w) h = tt
      calm (some t, w) h = h w

  -- If a read gives no more bytes than there is room for, a session does not panic: the string is
  -- long enough for every answer.
  pub session-Calm :
      (n : ℕ) (w : World) → ((w : World) → Short (read buf_length w)) → Calm (session socket n w)
  unfolding session
  session-Calm zero w short = tt
  session-Calm (suc n) w short =
      chunk-Calm (session socket n) (read buf_length w) (short w) (λ w'. session-Calm n w' short)
