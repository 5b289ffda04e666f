-- ===== src/Tftp/Receive/Laws.antt =====
-- The loop of src/tftp.rs that waits for a datagram of the remote drops those of others.
use embassy_sandbox.Prelude.{ℕ, zero, suc, ◌<◌, ◌≡◌, refl, arith, Bool, true, false, List, done}
use embassy_sandbox.Tftp.Run.{ok}
use embassy_sandbox.Tftp.Net.{Net}
use embassy_sandbox.Tftp.Receive.{receive}

module _ (net : Net) (accepts : net.Metadata → Bool) where
  open net use {World, Metadata, recv_from, packet_size}

  -- After that many datagrams of others there comes one that is accepted.
  pub data Arrives (bytes : List ℕ) (w' : World) : ℕ → World → Type 0 where
    now :
        {w : World} {m : Metadata}
        → recv_from packet_size w ≡ (ok (bytes, m), w')
        → accepts m ≡ true
        → Arrives bytes w' 0 w
    later :
        {k : ℕ} {w w1 : World} {others : List ℕ} {m : Metadata}
        → recv_from packet_size w ≡ (ok (others, m), w1)
        → accepts m ≡ false
        → Arrives bytes w' k w1
        → Arrives bytes w' (suc k) w

  -- If a datagram of the remote comes after `k` of others, and more than `k` are waited for, the loop
  -- returns that datagram, with the socket as it is then.
  pub receive-Arrives :
      (n k : ℕ) (bytes : List ℕ) (w w' : World)
      → Arrives bytes w' k w
      → k < n
      → receive net n accepts w ≡ done (ok bytes, w')
  unfolding receive
  receive-Arrives zero k bytes w w' a enough = absurd (omega arith)
  receive-Arrives (suc n) zero bytes w w' (now e same) enough = rw (e, same) refl
  receive-Arrives (suc n) (suc k) bytes w w' (later e other a) enough =
      rw (e, other) (receive-Arrives n k bytes _ w' a (omega arith))
