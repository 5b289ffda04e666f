-- ===== src/Tftp/Net.antt =====
-- What src/tftp.rs uses of embassy_net's sockets, of the file and of the ttftp crate: the operations
-- of code that is not part of this repository, and the errors they give.
use embassy_sandbox.Prelude.{ℕ, Bool, Option, List}
use embassy_sandbox.Tftp.Run.{Result}

-- `upload::AckReceived`, with the state of the transfer that follows.
pub data AckReceived (S : Type 0) : Type 0 where
  next_block : S → ℕ → AckReceived S
  transfer_complete : AckReceived S
  retransmission : S → AckReceived S

-- `download::BlockReceived`, with the bytes of the block.
pub data BlockReceived (S : Type 0) : Type 0 where
  intermediate : S → List ℕ → BlockReceived S
  final : List ℕ → BlockReceived S
  retransmission : S → BlockReceived S

pub record Net : Type 1 where
  -- The socket and the file, with all that is behind them.
  pub World : Type 0
  pub SendError : Type 0
  pub RecvError : Type 0
  pub FileError : Type 0
  pub FilenameError : Type 0
  pub TftpError : Type 0
  pub strip : TftpError → TftpError
  pub Filename : Type 0
  pub Mode : Type 0
  pub octect : Mode
  pub block_size : ℕ
  pub packet_size : ℕ
  -- `UdpMetadata` and the tests that are made of it.
  pub Metadata : Type 0
  pub same_endpoint : Metadata → Metadata → Bool
  pub same_metadata : Metadata → Metadata → Bool
  pub payload_recv_capacity : World → ℕ
  pub send_to : List ℕ → Metadata → World → Result SendError (Unit {0}) × World
  -- A datagram into a buffer of the given length.
  pub recv_from : ℕ → World → Result RecvError (List ℕ × Metadata) × World
  -- At most as many bytes as the given length, none at the end of the file.
  pub read : ℕ → World → Result FileError (List ℕ) × World
  pub write_all : List ℕ → World → Result FileError (Unit {0}) × World
  -- The state machines of the protocol. They write into the packet `tx` and say how much of it is
  -- to be sent.
  pub Uploading : Type 0
  pub new_upload : List ℕ → Filename → Mode → Result FilenameError (Uploading × ℕ) × List ℕ
  pub process_ack :
      Uploading
      → List ℕ
      → List ℕ
      → List ℕ
      → Result TftpError (AckReceived Uploading) × Option ℕ × List ℕ
  pub Downloading : Type 0
  pub new_download : List ℕ → Filename → Mode → Result FilenameError (Downloading × ℕ) × List ℕ
  pub process_block :
      Downloading
      → List ℕ
      → List ℕ
      → Result TftpError (BlockReceived Downloading) × Option ℕ × List ℕ

-- `TransferError`.
pub data TransferError (net : Net) : Type 0 where
  filename : net.FilenameError → TransferError net
  tftp : net.TftpError → TransferError net
  send : net.SendError → TransferError net
  recv : net.RecvError → TransferError net
  file : net.FileError → TransferError net
