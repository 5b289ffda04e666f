-- ===== src/Tftp/Errors.antt =====
-- The errors of src/tftp.rs: how `?` makes them, and how they are displayed.
use embassy_sandbox.Prelude.{ℕ, List, ◌++◌, codes}
use embassy_sandbox.Tftp.Net.{Net, TransferError}

module _ (net : Net) where
  -- The `From` conversions. An error of the file has none: it is mapped by `map_err`.
  abbrev pub from_filename : net.FilenameError → TransferError net
  from_filename = TransferError.filename

  abbrev pub from_tftp : net.TftpError → TransferError net
  from_tftp = TransferError.tftp

  abbrev pub from_send : net.SendError → TransferError net
  from_send = TransferError.send

  abbrev pub from_recv : net.RecvError → TransferError net
  from_recv = TransferError.recv

  -- The text of `Display`.
  unfoldable pub reason : TransferError net → List ℕ
  reason (TransferError.filename e) = codes "bad filename"
  reason (TransferError.tftp e) = codes "TTFTP"
  reason (TransferError.send e) = codes "UDP send"
  reason (TransferError.recv e) = codes "UDP receive"
  reason (TransferError.file e) = codes "file read or write"

  unfoldable pub display : TransferError net → List ℕ
  unfolding reason
  display error = codes "file transfer failed: " ++ reason error
