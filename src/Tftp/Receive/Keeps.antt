-- ===== src/Tftp/Receive/Keeps.antt =====
-- What the calls of src/tftp.rs to the socket leave as it is.
use embassy_sandbox.Prelude.{
  ℕ, zero, suc, ◌≤◌, ◌≡◌, refl, ◌∙◌, Bool, Option, none, some, List, length,
}
use embassy_sandbox.Tftp.Run.{pure, try, lift, slice_to}
use embassy_sandbox.Tftp.Run.Holds.{
  Holds, Holds-weaken, if-Holds, bind-Holds, try-Holds, slice_to-Holds,
}
use embassy_sandbox.Tftp.Net.{Net, TransferError}
use embassy_sandbox.Tftp.Receive.{receive, reply}

-- A packet is not longer than its buffer.
abbrev pub Fits : Option ℕ → List ℕ → Type 0
Fits none tx = Unit
Fits (some n) tx = n ≤ length tx

-- Some of what is behind the socket is left alone by it.
module _ (net : Net) (view : net.World → List ℕ)
    (send_keeps : (d : List ℕ) (m : net.Metadata) (w : net.World)
      → view (net.send_to d m w).1 ≡ view w)
    (recv_keeps : (n : ℕ) (w : net.World) → view (net.recv_from n w).1 ≡ view w) where
  open net use {World, Metadata, send_to, recv_from, packet_size}

  abbrev Error : Type 0
  Error = TransferError net

  abbrev pub Still : {A : Type 0} → World → A → World → Type 0
  Still w r w' = view w' ≡ view w

  pub receive-Holds :
      (n : ℕ) (accepts : Metadata → Bool) (w : World)
      → Holds {E = Error} (Still w) (receive net n accepts w)
  unfolding receive Holds
  receive-Holds zero accepts w = tt
  receive-Holds (suc n) accepts w =
      bind-Holds (Still w) (Still w) (try TransferError.recv (recv_from packet_size)) _ w
        (try-Holds {E = Error} TransferError.recv (Still w) (recv_from packet_size) w
          (λ r. recv_keeps packet_size w))
        (λ r w' e. if-Holds (Still w) (accepts r.1) (pure r.0) (receive net n accepts) w' e (
          Holds-weaken {P = Still w'} {Q = Still w} _ (receive-Holds n accepts w')
            (λ r' w'' e'. e' ∙ e)))

  pub reply-Holds :
      (answer : Option ℕ) (tx : List ℕ) (m : Metadata) (w : World)
      → Fits answer tx
      → Holds {E = Error} (Still w) (reply net answer tx m w)
  unfolding reply
  reply-Holds none tx m w fits = unfold Holds in refl
  reply-Holds (some n) tx m w fits =
      bind-Holds (Still w) (Still w) (lift (slice_to tx n)) _ w
        (slice_to-Holds Error (Still w) tx n w fits refl)
        (λ d w' e.
          try-Holds {E = Error} TransferError.send (Still w) (send_to d m) w'
            (λ u. send_keeps d m w' ∙ e))
