-- ===== src/Echo/Answers.antt =====
-- What a session of the echo server of src/main.rs sends to a client.
use embassy_sandbox.Prelude.{ℕ, suc, ◌≤◌, ◌≡◌, refl, sym, ◌∙◌, ap, arith, some}
use embassy_sandbox.Prelude.{List, [], ◌∷◌, ◌++◌, length, done}
use mathlib.Core.List.{append-nil, append_assoc}
use embassy_sandbox.Echo.{Socket, buf_length, session}
use embassy_sandbox.Echo.Laws.{line, format-line}

-- The client sends chunks that fit the buffer, and then no more; a write succeeds.
pub record Client (socket : Socket) : Type 0 where
  pub incoming : socket.World → List (List ℕ)
  pub outgoing : socket.World → List ℕ
  pub reads :
      (w : socket.World) (b : ℕ) (buf : List ℕ) (chunks : List (List ℕ))
      → incoming w ≡ (b ∷ buf) ∷ chunks
      → (length (b ∷ buf) ≤ buf_length)
        × (w' : socket.World) × (socket.read buf_length w ≡ (some (b ∷ buf), w'))
        × (incoming w' ≡ chunks)
        × (outgoing w' ≡ outgoing w)
  pub ends :
      (w : socket.World)
      → incoming w ≡ []
      → (w' : socket.World) × (socket.read buf_length w ≡ (some [], w'))
        × (outgoing w' ≡ outgoing w)
  pub writes :
      (w : socket.World) (text : List ℕ)
      → (w' : socket.World) × (socket.write_all text w ≡ (some tt, w'))
        × (incoming w' ≡ incoming w)
        × (outgoing w' ≡ outgoing w ++ text)

-- The lines of digits that answer the chunks.
abbrev pub lines : List (List ℕ) → List ℕ
lines [] = []
lines (buf ∷ chunks) = line buf ++ lines chunks

-- No chunk is empty.
abbrev pub Chunks : List (List ℕ) → Type 0
Chunks [] = Unit
Chunks ([] ∷ chunks) = ⊥
Chunks ((b ∷ buf) ∷ chunks) = Chunks chunks

module _ (socket : Socket) (client : Client socket) where
  open socket use {World}
  open client use {incoming, outgoing}

  -- With a client that sends chunks that are not empty and fit the buffer and then closes, and a
  -- socket whose every write succeeds, also after the client has closed: a session ends after one
  -- read more than there are chunks, and it has answered each chunk by the line of its digits, in
  -- order.
  pub session-Answers :
      (chunks : List (List ℕ)) (w : World)
      → Chunks chunks
      → incoming w ≡ chunks
      → (w' : World) × (session socket (suc (length chunks)) w ≡ done w')
        × (outgoing w' ≡ outgoing w ++ lines chunks)
  unfolding session
  session-Answers [] w c e =
      let (w', r, same) = client.ends w e in (w', rw r refl, same ∙ sym (append-nil (outgoing w)))
  session-Answers ([] ∷ chunks) w c e = absurd c
  session-Answers ((b ∷ buf) ∷ chunks) w c e =
      let (fits, w1, r, rest, same) = client.reads w b buf chunks e in
      let (w2, wr, kept, sent) = client.writes w1 (line (b ∷ buf)) in
      let (w', s, out) = session-Answers chunks w2 c (kept ∙ rest) in
      (
        w',
        rw (r, format-line [] (b ∷ buf) (omega (arith, fits)), wr) s,
        out
            ∙ ap (λ o. o ++ lines chunks) (sent ∙ ap (λ o. o ++ line (b ∷ buf)) same)
            ∙ append_assoc (outgoing w) (line (b ∷ buf)) (lines chunks),
      )
