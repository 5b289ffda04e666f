-- ===== src/Tftp/Upload.antt =====
-- `upload` of src/tftp.rs. A round of its loop is `round`.
pub mod Contract
pub mod Rounds
pub mod Stream
pub mod Sent
pub mod Prompt
pub mod Completes
pub mod Ends
pub mod Delivers
use embassy_sandbox.Prelude.{ℕ, zero, suc, ◌+◌, Bool, Option, List, length, take, leb, ◌++◌}
use embassy_sandbox.Prelude.{Outcome, done, starved, assert, checked_sub}
use embassy_sandbox.Tftp.Run.{
  Run, Result, ok, err, pure, returned, map_err, reads, try, lift, slice_to, slice_from, ◌>>=◌,
  ◌>>◌,
}
use embassy_sandbox.Tftp.Net.{Net, TransferError, AckReceived}
use embassy_sandbox.Tftp.Fill.{fill_buf}
use embassy_sandbox.Tftp.Receive.{receive, reply}

-- The variables that live from one round to the next; `tx` is the packet.
pub record Upload (net : Net) : Type 0 where
  pub state : net.Uploading
  pub file_buf : List ℕ
  pub buf_offset : ℕ
  pub tx : List ℕ

-- How a round ends: by `break`, or with the variables of the next round.
pub data Step (net : Net) : Type 0 where
  finished : Step net
  again : Upload net → Step net

module _ (net : Net) where
  open net use {
    World, Metadata, Filename, octect, strip, packet_size, payload_recv_capacity, same_endpoint,
    send_to, new_upload, process_ack, Uploading,
  }

  abbrev Io : Type 0 → Type 0
  Io A = Run World (TransferError net) A

  -- The `match` on what was acknowledged.
  abbrev pub acknowledged : AckReceived Uploading → List ℕ → ℕ → List ℕ → Io (Step net)
  acknowledged (AckReceived.next_block state consumed) file_buf buf_len tx = do
    buf_offset ← lift (checked_sub buf_len consumed)
    pure (again (record { state = state; file_buf = file_buf; buf_offset = buf_offset; tx = tx }))
  acknowledged AckReceived.transfer_complete file_buf buf_len tx = pure finished
  acknowledged (AckReceived.retransmission state) file_buf buf_len tx =
      pure (again (record { state = state; file_buf = file_buf; buf_offset = buf_len; tx = tx }))

  -- What follows once `file_buf` is filled up to `buf_len`.
  unfoldable pub processed : Metadata → Upload net → List ℕ → List ℕ → ℕ → Io (Step net)
  processed remote u received file_buf buf_len = do
    contents ← lift (slice_to file_buf buf_len)
    (result, answer, tx) ← pure (process_ack u.state received u.tx contents)
    reply net answer tx remote
    ack ← returned (λ e. TransferError.tftp (strip e)) result
    acknowledged ack file_buf buf_len tx

  -- `send` is the length of the first packet in every round.
  unfoldable pub round : ℕ → Metadata → ℕ → Upload net → Io (Step net)
  round datagrams remote send u = do
    datagram ← lift (slice_to u.tx send)
    try TransferError.send (send_to datagram remote)
    received ← receive net datagrams (λ sender. same_endpoint sender remote)
    space ← lift (slice_from u.file_buf u.buf_offset)
    (filled, part) ← map_err TransferError.file (fill_buf net space)
    processed remote u received (take u.buf_offset u.file_buf ++ part) (u.buf_offset + filled)

  -- What follows a round: after `break` the function returns `Ok`.
  abbrev pub after_round : (Upload net → Io (Unit {0})) → Step net → Io (Unit {0})
  after_round go finished = pure tt
  after_round go (again u) = go u

  unfoldable pub rounds : ℕ → ℕ → Metadata → ℕ → Upload net → Io (Unit {0})
  rounds zero datagrams remote send u = lift starved
  rounds (suc n) datagrams remote send u = do
    step ← round datagrams remote send u
    after_round (rounds n datagrams remote send) step

  unfoldable pub upload : ℕ → ℕ → Filename → List ℕ → List ℕ → Metadata → Io (Unit {0})
  upload n datagrams filename file_buf tx remote = do
    capacity ← reads payload_recv_capacity
    lift (assert (leb packet_size capacity))
    (made, tx') ← pure (new_upload tx filename octect)
    (state, send) ← returned TransferError.filename made
    rounds n datagrams remote send
        (record { state = state; file_buf = file_buf; buf_offset = 0; tx = tx' })
