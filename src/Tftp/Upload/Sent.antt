-- ===== src/Tftp/Upload/Sent.antt =====
-- `upload` of src/tftp.rs gives the protocol the file, each byte once and in order.
use embassy_sandbox.Prelude.{ℕ, ◌≤◌, ◌≡◌, ◌⊎◌, inl, inr, sym, ◌∙◌, ap, ap₂, arith, false}
use embassy_sandbox.Prelude.{
  List, [], ◌++◌, length, take, done, checked_sub, length-take, take-eq_self,
}
use mathlib.Core.List.{append-nil, append_assoc}
use embassy_sandbox.Tftp.Run.{ok}
use embassy_sandbox.Tftp.Run.Holds.{Holds}
use embassy_sandbox.Tftp.Net.{Net, TransferError, AckReceived}
use embassy_sandbox.Tftp.Fill.Laws.{Reads}
use embassy_sandbox.Tftp.Upload.{Upload, Step, finished, again, acknowledged, round}
use embassy_sandbox.Tftp.Upload.Contract.{Protocol, Log, Logs}
use embassy_sandbox.Tftp.Upload.Contract
use embassy_sandbox.Tftp.Upload.Rounds

module _ (net : Net) (file : Reads net) (protocol : Protocol net file) (log : Log net) where
  open net use {World, Metadata, Filename, Uploading, block_size, octect, new_upload, process_ack}
  open file use {remaining}
  open log use {sent, last, block}

  abbrev ahead : Upload net → World → List ℕ
  ahead = Rounds.ahead net file protocol

  -- The protocol has some bytes of the file and the others are ahead, none after the last block.
  abbrev pub Conserves : ℕ → List ℕ → Upload net → World → Type 0
  Conserves send whole u w =
      Rounds.Intact net file protocol send u
      × (sent u.state ++ ahead u w ≡ whole)
      × ((last u.state ≡ false) ⊎ (ahead u w ≡ []))

  -- What a round that begins with the state `s` of the protocol makes of that.
  abbrev pub After : ℕ → List ℕ → Uploading → Step net → World → Type 0
  After send whole s finished w = sent s ≡ whole
  After send whole s (again u) w = Conserves send whole u w

  acknowledged-After :
      (send : ℕ) (whole c buf : List ℕ) (n : ℕ) (s : Uploading) (tx : List ℕ)
      (ack : AckReceived Uploading) (w : World)
      → sent s ++ c ≡ whole
      → (last s ≡ false) ⊎ (c ≡ [])
      → Rounds.Ready net file protocol c buf n w
      → send ≤ length tx
      → Contract.Consumes block_size (take n buf) ack
      → Logs sent last block block_size s (take n buf) ack
      → Holds {E = TransferError net} (After send whole s) (acknowledged net ack buf n tx w)
  unfolding Holds
  acknowledged-After send whole c buf n s tx (AckReceived.next_block s' k) w total end ready fits
        all logs =
      let handed = length-take n buf in
      let exact : k ≡ n = omega (arith, all, ready.0, ready.1, handed) in
      let none_left : checked_sub n k ≡ done 0 = ground (arith, exact) in
      let more : sent s' ≡ sent s ++ take n buf =
        logs.0
        ∙ ap (λ r. sent s ++ r) (take-eq_self k (take n buf) (omega (arith, exact, handed))) in
      rw none_left (
        (ready.0, omega arith, fits),
        ap (λ r. r ++ remaining w) more
            ∙ append_assoc (sent s) (take n buf) (remaining w)
            ∙ ap (λ r. sent s ++ r) ready.2
            ∙ total,
        elim ready.3 [
          | inl full ↦ inl (logs.1 ∙ ground (arith, exact, full))
          | inr over ↦ inr over
        ],
      )
  acknowledged-After send whole c buf n s tx AckReceived.transfer_complete w total end ready fits
        all logs =
      let over : c ≡ [] = elim end [ inl more ↦ cc | inr over ↦ over ] in
      sym (append-nil (sent s)) ∙ ap (λ r. sent s ++ r) (sym over) ∙ total
  acknowledged-After send whole c buf n s tx (AckReceived.retransmission s') w total end ready fits
        all logs =
      (
        (ready.0, ready.1, fits),
        ap₂ ◌++◌ logs.0 ready.2 ∙ total,
        elim end [ inl more ↦ inl (logs.1 ∙ more) | inr over ↦ inr (ready.2 ∙ over) ],
      )

  pub round-After :
      (datagrams : ℕ) (remote : Metadata) (send : ℕ) (whole : List ℕ) (u : Upload net) (w : World)
      → Conserves send whole u w
      → Holds {E = TransferError net}
          (After send whole u.state)
          (round net datagrams remote send u w)
  round-After datagrams remote send whole u w (intact, total, end) =
      Rounds.round-Through net file protocol (After send whole u.state) u datagrams remote send w
        (λ received buf n ack w' ready e.
          acknowledged-After send whole (ahead u w) buf n u.state _ ack w' total end ready
            (omega (arith, intact.2, protocol.length-tx u.state received u.tx (take n buf)))
            (protocol.consumes u.state received u.tx (take n buf) ack e)
            (log.logs u.state received u.tx (take n buf) ack e))
        intact

  -- The states of the loop that rounds lead to.
  pub data Follows (datagrams : ℕ) (remote : Metadata) (send : ℕ) (start : Upload net × World)
      : Upload net → World → Type 0 where
    at_start : Follows datagrams remote send start start.0 start.1
    later :
        {u u' : Upload net} {w w' : World}
        → Follows datagrams remote send start u w
        → round net datagrams remote send u w ≡ done (ok (again u'), w')
        → Follows datagrams remote send start u' w'

  -- For a file that obeys the contract of `Read`, a socket that leaves it alone and a protocol that
  -- takes whole blocks in order, however many rounds there were: if it was so at the start, the bytes
  -- that the protocol has been given, and then those that are ahead, are the same bytes as at the start,
  -- none are ahead after the last block, and the buffers are as long as they were.
  pub Follows-Conserves :
      {datagrams : ℕ} {remote : Metadata} {send : ℕ} {start : Upload net × World} {u : Upload net}
      {w : World} (whole : List ℕ)
      → Conserves send whole start.0 start.1
      → Follows datagrams remote send start u w
      → Conserves send whole u w
  unfolding Holds
  Follows-Conserves whole c at_start = c
  Follows-Conserves {datagrams} {remote} {send} whole c (later {u} {u'} {w} {w'} f e) =
      rw e at (round-After datagrams remote send whole u w (Follows-Conserves whole c f))

  -- For a file that obeys the contract of `Read`, a socket that leaves it alone, a protocol that takes
  -- whole blocks in order and is complete when the last, short one is acknowledged, and a file buffer
  -- of a block: when a round ends the loop of an upload, however many rounds there were before it,
  -- the protocol has been given the whole file.
  pub upload-Sent :
      (datagrams : ℕ) (remote : Metadata) (name : Filename) (file_buf tx : List ℕ) (w0 : World)
      (s : Uploading) (send : ℕ) (u : Upload net) (w w' : World)
      → length file_buf ≡ block_size
      → (new_upload tx name octect).0 ≡ ok (s, send)
      → Follows datagrams remote send
          (
            (record {
              state = s;
              file_buf = file_buf;
              buf_offset = 0;
              tx = (new_upload tx name octect).1;
            }),
            w0,
          )
          u
          w
      → round net datagrams remote send u w ≡ done (ok finished, w')
      → sent u.state ≡ remaining w0
  unfolding Holds
  upload-Sent datagrams remote name file_buf tx w0 s send u w w' long made f e =
      let (none_sent, more) = log.sent_first tx name s send made in
      let first : Conserves send (remaining w0) _ w0 = (
        (long, omega arith, protocol.first_packet tx name s send made),
        ap (λ r. r ++ remaining w0) none_sent,
        inl more,
      ) in
      rw e at (
        round-After datagrams remote send (remaining w0) u w
          (Follows-Conserves (remaining w0) first f))
