-- ===== src/Tftp/Receive/Calls.antt =====
-- The calls of src/tftp.rs to a socket that gives no error.
use embassy_sandbox.Prelude.{ℕ, ◌<◌, ◌≡◌, refl, Bool, Option, none, some, List, take}
use embassy_sandbox.Tftp.Run.{ok, try, lift, slice_to}
use embassy_sandbox.Tftp.Run.Smooth.{Smooth, bind-Smooth, returned-Smooth, slice_to-Smooth}
use embassy_sandbox.Tftp.Net.{Net, TransferError}
use embassy_sandbox.Tftp.Receive.{receive, reply}
use embassy_sandbox.Tftp.Receive.Laws.{Arrives, receive-Arrives}

-- The socket once the protocol's answer, if any, is sent.
abbrev pub answered : (net : Net) → net.Metadata → Option ℕ → List ℕ → net.World → net.World
answered net remote none tx w = w
answered net remote (some n) tx w = (net.send_to (take n tx) remote w).1

module _ (net : Net) (remote : net.Metadata)
    (sends : (d : List ℕ) (w : net.World) → (net.send_to d remote w).0 ≡ ok tt) where
  open net use {World, Metadata, send_to}

  abbrev Error : Type 0
  Error = TransferError net

  -- The socket after it sent a datagram to the remote.
  abbrev pub Sends : List ℕ → World → Unit {0} → World → Type 0
  Sends d w t w' = w' ≡ (send_to d remote w).1

  pub try_send-Smooth :
      (d : List ℕ) (w : World)
      → Smooth {E = Error} (Sends d w) (try TransferError.send (send_to d remote) w)
  try_send-Smooth d w =
      returned-Smooth TransferError.send (Sends d w) (send_to d remote w).0 _ tt (sends d w) refl

  pub reply-Smooth :
      (answer : Option ℕ) (tx : List ℕ) (w : World)
      → Smooth {E = Error}
          (λ t w'. w' ≡ answered net remote answer tx w)
          (reply net answer tx remote w)
  unfolding reply
  reply-Smooth none tx w = unfold Smooth in refl
  reply-Smooth (some n) tx w =
      bind-Smooth (λ d w'. (d ≡ take n tx) × (w' ≡ w))
        (λ t w'. w' ≡ answered net remote (some n) tx w) (lift (slice_to tx n)) _ w
        (slice_to-Smooth Error (λ d w'. (d ≡ take n tx) × (w' ≡ w)) tx n w (refl, refl))
        (λ d w' e. rw (e.0, e.1) (try_send-Smooth (take n tx) w))

  -- A datagram that comes soon enough is received.
  pub receive-Smooth :
      (P : List ℕ → World → Type 0) (accepts : Metadata → Bool) (datagrams k : ℕ)
      (received : List ℕ) (w w' : World)
      → Arrives net accepts received w' k w
      → k < datagrams
      → P received w'
      → Smooth {E = Error} P (receive net datagrams accepts w)
  unfolding Smooth
  receive-Smooth P accepts datagrams k received w w' arrives soon p =
      rw (receive-Arrives net accepts datagrams k received w w' arrives soon) p
