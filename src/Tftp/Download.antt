-- ===== src/Tftp/Download.antt =====
-- `download` of src/tftp.rs. A round of its loop is `round`.
pub mod End
pub mod Stored
pub mod Prompt
pub mod Reaches
pub mod Fetches
use embassy_sandbox.Prelude.{ℕ, zero, suc, Bool, List, leb, Outcome, panic, starved, assert}
use embassy_sandbox.Tftp.Run.{
  Run, Result, ok, err, pure, returned, reads, try, lift, slice_to, ◌>>=◌, ◌>>◌,
}
use embassy_sandbox.Tftp.Net.{Net, TransferError, BlockReceived}
use embassy_sandbox.Tftp.Receive.{receive, reply}

-- The variables that live from one round to the next; `tx` is the packet.
pub record Download (net : Net) : Type 0 where
  pub state : net.Downloading
  pub tx : List ℕ

-- How a round ends: by `break`, or with the variables of the next round.
pub data Step (net : Net) : Type 0 where
  finished : Step net
  again : Download net → Step net

module _ (net : Net) where
  open net use {
    World, Metadata, Filename, octect, strip, packet_size, payload_recv_capacity, same_metadata,
    send_to, write_all, new_download, process_block, Downloading,
  }

  abbrev Io : Type 0 → Type 0
  Io A = Run World (TransferError net) A

  -- The `match` on the block.
  abbrev pub stored : BlockReceived Downloading → List ℕ → Io (Step net)
  stored (BlockReceived.intermediate state block) tx = do
    try TransferError.file (write_all block)
    pure (again (record { state = state; tx = tx }))
  stored (BlockReceived.final block) tx = do try TransferError.file (write_all block); pure finished
  stored (BlockReceived.retransmission state) tx = pure (again (record { state = state; tx = tx }))

  -- `send` is the length of the first packet in every round.
  unfoldable pub round : ℕ → Metadata → ℕ → Download net → Io (Step net)
  round datagrams remote send d = do
    datagram ← lift (slice_to d.tx send)
    try TransferError.send (send_to datagram remote)
    received ← receive net datagrams (λ sender. same_metadata sender remote)
    (result, answer, tx) ← pure (process_block d.state received d.tx)
    reply net answer tx remote
    block ← returned (λ e. TransferError.tftp (strip e)) result
    stored block tx

  -- What follows a round: after `break` comes the `todo!()`, which panics.
  abbrev pub after_round : (Download net → Io (Unit {0})) → Step net → Io (Unit {0})
  after_round go finished = lift panic
  after_round go (again d) = go d

  unfoldable pub rounds : ℕ → ℕ → Metadata → ℕ → Download net → Io (Unit {0})
  rounds zero datagrams remote send d = lift starved
  rounds (suc n) datagrams remote send d = do
    step ← round datagrams remote send d
    after_round (rounds n datagrams remote send) step

  unfoldable pub download : ℕ → ℕ → Filename → List ℕ → Metadata → Io (Unit {0})
  download n datagrams filename tx remote = do
    capacity ← reads payload_recv_capacity
    lift (assert (leb packet_size capacity))
    (made, tx') ← pure (new_download tx filename octect)
    (state, send) ← returned TransferError.filename made
    rounds n datagrams remote send (record { state = state; tx = tx' })
