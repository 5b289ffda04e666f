-- ===== src/Echo/Server.antt =====
-- The outer loop of the echo server of src/main.rs, which accepts one connection after the other.
use embassy_sandbox.Prelude.{ℕ, zero, suc, Option, none, some, Outcome, done, panic, starved, ◌>>=◌}
use embassy_sandbox.Echo.{Socket, buf_length, session}
use embassy_sandbox.Echo.Laws.{Calm, Short, session-Calm}

-- The socket that the server listens with, and the timer.
pub record Listener : Type 1 where
  pub socket : Socket
  -- `Err(_)` is `none`.
  pub accept : ℕ → socket.World → Option (Unit {0}) × socket.World
  pub close : socket.World → socket.World
  pub flush : socket.World → Option (Unit {0}) × socket.World
  -- `Timer::after_secs`.
  pub after_secs : ℕ → socket.World → socket.World

abbrev pub port : ℕ
port = 1234

module _ (listener : Listener) where
  open listener use {socket, accept, close, flush, after_secs}
  open socket use {World, read}

  -- What follows the `accept` of a round.
  abbrev pub accepted : ℕ → Option (Unit {0}) × World → Outcome World
  accepted chunks (none, w) = done (after_secs 1 w)
  accepted chunks (some t, w) = do w' ← session socket chunks w; done (flush (close w')).1

  unfoldable pub serve : ℕ → World → Outcome World
  serve chunks w = accepted chunks (accept port w)

  -- The loop, which has no end, for that many rounds.
  unfoldable pub server : ℕ → ℕ → World → Outcome World
  server zero chunks w = starved
  server (suc n) chunks w = serve chunks w >>= server n chunks

  -- It goes on.
  abbrev pub Endless : Outcome World → Type 0
  Endless (done w) = ⊥
  Endless panic = ⊥
  Endless starved = Unit

  module _ (chunks : ℕ) (short : (w : World) → Short socket (read buf_length w)) where
    serve-Calm : (w : World) → Calm socket (serve chunks w)
    unfolding serve
    serve-Calm w = after_accept (accept port w)
      where
        closes :
            (o : Outcome World)
            → Calm socket o
            → Calm socket (o >>= λ w'. done (flush (close w')).1)
        closes (done w') c = tt
        closes panic c = c
        closes starved c = tt

        after_accept : (r : Option (Unit {0}) × World) → Calm socket (accepted chunks r)
        after_accept (none, w') = tt
        after_accept (some t, w') =
            closes (session socket chunks w') (session-Calm socket chunks w' short)

    goes_on-Endless :
        (go : World → Outcome World)
        → ((w : World) → Endless (go w))
        → (o : Outcome World) → Calm socket o
        → Endless (o >>= go)
    goes_on-Endless go h (done w') c = h w'
    goes_on-Endless go h panic c = c
    goes_on-Endless go h starved c = tt

    -- If a read gives no more bytes than there is room for, the server neither returns nor panics,
    -- whatever the connections do and however many there are.
    pub server-Endless : (n : ℕ) (w : World) → Endless (server n chunks w)
    unfolding server
    server-Endless zero w = tt
    server-Endless (suc n) w =
        goes_on-Endless (server n chunks) (λ w'. server-Endless n w') (serve chunks w)
          (serve-Calm w)
