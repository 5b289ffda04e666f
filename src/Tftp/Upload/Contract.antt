-- ===== src/Tftp/Upload/Contract.antt =====
-- What `upload` of src/tftp.rs relies on in the protocol crate and the socket.
use Prim.Native.Nat.{min}
use embassy_sandbox.Prelude.{
  ℕ, suc, ◌≤◌, ◌<◌, ◌≡◌, List, [], ◌++◌, length, take, ltb, Bool, true, false,
}
use embassy_sandbox.Tftp.Run.{ok}
use embassy_sandbox.Tftp.Net.{Net, AckReceived}
use embassy_sandbox.Tftp.Fill.Laws.{Reads}
use embassy_sandbox.Tftp.Receive.Keeps.{Fits}
use embassy_sandbox.Tftp.Receive.Laws.{Arrives}
use embassy_sandbox.Tftp.Receive.Calls.{answered}

-- The next block takes the bytes it is given, up to the length of a block.
abbrev pub Consumes : {S : Type 0} → ℕ → List ℕ → AckReceived S → Type 0
Consumes block_size bytes (AckReceived.next_block s n) = n ≡ min block_size (length bytes)
Consumes block_size bytes AckReceived.transfer_complete = Unit
Consumes block_size bytes (AckReceived.retransmission s) = Unit

pub record Protocol (net : Net) (reads : Reads net) : Type 0 where
  -- The socket leaves the file alone.
  pub send_keeps :
      (datagram : List ℕ) (m : net.Metadata) (w : net.World)
      → reads.remaining (net.send_to datagram m w).1 ≡ reads.remaining w
  pub recv_keeps :
      (n : ℕ) (w : net.World) → reads.remaining (net.recv_from n w).1 ≡ reads.remaining w
  pub first_packet :
      (tx : List ℕ) (name : net.Filename) (s : net.Uploading) (n : ℕ)
      → (net.new_upload tx name net.octect).0 ≡ ok (s, n)
      → n ≤ length (net.new_upload tx name net.octect).1
  pub length-tx :
      (s : net.Uploading) (received tx bytes : List ℕ)
      → length (net.process_ack s received tx bytes).2 ≡ length tx
  pub answer_fits :
      (s : net.Uploading) (received tx bytes : List ℕ)
      → Fits (net.process_ack s received tx bytes).1 (net.process_ack s received tx bytes).2
  pub consumes :
      (s : net.Uploading) (received tx bytes : List ℕ) (ack : AckReceived net.Uploading)
      → (net.process_ack s received tx bytes).0 ≡ ok ack
      → Consumes net.block_size bytes ack

-- What an acknowledgement says of the bytes that the protocol has had and of whether the last block,
-- which is a short one, is among them.
abbrev pub Logs :
    {S : Type 0} → (S → List ℕ) → (S → Bool) → (S → ℕ) → ℕ → S → List ℕ → AckReceived S → Type 0
Logs sent last block block_size s bytes (AckReceived.next_block s' n) =
    (sent s' ≡ sent s ++ take n bytes)
    × (last s' ≡ ltb n block_size)
    × (last s ≡ false)
    × (block s' ≡ suc (block s))
Logs sent last block block_size s bytes AckReceived.transfer_complete = last s ≡ true
Logs sent last block block_size s bytes (AckReceived.retransmission s') =
    (sent s' ≡ sent s) × (last s' ≡ last s) × (block s' ≡ block s)

-- The protocol takes the blocks in order, counts them, and is complete when the last one is
-- acknowledged.
pub record Log (net : Net) : Type 0 where
  pub sent : net.Uploading → List ℕ
  pub last : net.Uploading → Bool
  pub block : net.Uploading → ℕ
  pub sent_first :
      (tx : List ℕ) (name : net.Filename) (s : net.Uploading) (n : ℕ)
      → (net.new_upload tx name net.octect).0 ≡ ok (s, n)
      → (sent s ≡ []) × (last s ≡ false)
  pub logs :
      (s : net.Uploading) (received tx bytes : List ℕ) (ack : AckReceived net.Uploading)
      → (net.process_ack s received tx bytes).0 ≡ ok ack
      → Logs sent last block net.block_size s bytes ack

-- What the remote awaits after an acknowledgement, where it awaits a state of the protocol with so
-- many retransmissions to come.
abbrev pub Expects : {S W : Type 0} → (ℕ → S → W → Type 0) → ℕ → AckReceived S → W → Type 0
Expects awaits repeats (AckReceived.next_block s' n) w = awaits repeats s' w
Expects awaits repeats AckReceived.transfer_complete w = Unit
Expects awaits repeats (AckReceived.retransmission s') w =
    (less : ℕ) × (repeats ≡ suc less) × awaits less s' w

-- A file and a socket without errors, and a remote that answers: while it `awaits` a datagram, it
-- answers any that is sent within so many datagrams; the protocol has then `heard` it, and processes
-- what it heard without an error; and after a next block or a retransmission the remote awaits again.
-- Both count the retransmissions to come, which are what the protocol makes of an acknowledgement that
-- is heard again: `upload` sends each packet twice.
pub record Prompt (net : Net) (datagrams : ℕ) (remote : net.Metadata) : Type 1 where
  pub awaits : ℕ → net.Uploading → net.World → Type 0
  pub heard : ℕ → net.Uploading → List ℕ → net.World → Type 0
  pub sends : (d : List ℕ) (w : net.World) → (net.send_to d remote w).0 ≡ ok tt
  pub answers :
      (repeats : ℕ) (s : net.Uploading) (d : List ℕ) (w : net.World)
      → awaits repeats s w
      → (k : ℕ) × (received : List ℕ) × (w' : net.World) × Arrives net
          (λ sender. net.same_endpoint sender remote)
          received
          w'
          k
          (net.send_to d remote w).1
        × (k < datagrams)
        × heard repeats s received w'
  pub reads :
      (repeats : ℕ) (s : net.Uploading) (received : List ℕ) (n : ℕ) (w : net.World)
      → heard repeats s received w
      → (bytes : List ℕ) × (w' : net.World) × (net.read n w ≡ (ok bytes, w'))
        × heard repeats s received w'
  pub processes :
      (repeats : ℕ) (s : net.Uploading) (received tx bytes : List ℕ) (w : net.World)
      → heard repeats s received w
      → (ack : AckReceived net.Uploading) × ((net.process_ack s received tx bytes).0 ≡ ok ack)
        × (let p = net.process_ack s received tx bytes in
            Expects awaits repeats ack (answered net remote p.1 p.2 w))
