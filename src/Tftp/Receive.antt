-- ===== src/Tftp/Receive.antt =====
-- The loops of src/tftp.rs that wait for a datagram of the remote, and its reply to one.
pub mod Laws
pub mod Keeps
pub mod Calls
use embassy_sandbox.Prelude.{
  ℕ, zero, suc, Bool, if◌then◌else◌, Option, none, some, List, Outcome, starved,
}
use embassy_sandbox.Tftp.Run.{Run, Result, ok, err, pure, try, lift, slice_to, ◌>>=◌, ◌>>◌}
use embassy_sandbox.Tftp.Net.{Net, TransferError}

module _ (net : Net) where
  open net use {World, Metadata, recv_from, send_to, packet_size}

  abbrev Io : Type 0 → Type 0
  Io A = Run World (TransferError net) A

  -- A datagram from `accepts`; others are dropped. The first argument is how many may come.
  unfoldable pub receive : ℕ → (Metadata → Bool) → Io (List ℕ)
  receive zero accepts = lift starved
  receive (suc datagrams) accepts =
      let again = receive datagrams accepts in
      do
        (received, sender) ← try TransferError.recv (recv_from packet_size)
        if accepts sender then pure received else again

  -- `if let Some(send) = send { ... }`.
  unfoldable pub reply : Option ℕ → List ℕ → Metadata → Io (Unit {0})
  reply none tx remote = pure tt
  reply (some n) tx remote = do
    datagram ← lift (slice_to tx n)
    try TransferError.send (send_to datagram remote)
