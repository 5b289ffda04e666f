-- ===== src/Tftp/Upload/Stream.antt =====
-- `upload` of src/tftp.rs does not lose its place in the file, and does not panic.
use embassy_sandbox.Prelude.{ℕ, ◌≤◌, ◌≡◌, ◌⊎◌, inl, inr, sym, ◌∙◌, ap, arith}
use embassy_sandbox.Prelude.{List, length, take, drop, done, checked_sub}
use embassy_sandbox.Prelude.{length-take, length-append, drop-append_at, drop-eq-nil}
use embassy_sandbox.Tftp.Run.Holds.{Holds}
use embassy_sandbox.Tftp.Net.{Net, TransferError, AckReceived}
use embassy_sandbox.Tftp.Fill.Laws.{Reads}
use embassy_sandbox.Tftp.Upload.{Upload, Step, finished, again, acknowledged, round}
use embassy_sandbox.Tftp.Upload.Contract.{Protocol, Consumes}
use embassy_sandbox.Tftp.Upload.Rounds

module _ (net : Net) (file : Reads net) (protocol : Protocol net file) where
  open net use {World, Metadata, Uploading, block_size}
  open file use {remaining}

  abbrev Error : Type 0
  Error = TransferError net

  abbrev ahead : Upload net → World → List ℕ
  ahead = Rounds.ahead net file protocol

  abbrev Intact : ℕ → Upload net → Type 0
  Intact = Rounds.Intact net file protocol

  abbrev Ready : List ℕ → List ℕ → ℕ → World → Type 0
  Ready = Rounds.Ready net file protocol

  -- What a round makes of the bytes `c` that were ahead of it: the same, or those after a block.
  abbrev pub Advances : ℕ → List ℕ → Step net → World → Type 0
  Advances send c finished w = Unit
  Advances send c (again u) w = Intact send u × ((ahead u w ≡ c) ⊎ (ahead u w ≡ drop block_size c))

  pub after_block :
      (c buf : List ℕ) (n : ℕ) (w : World) → Ready c buf n w → remaining w ≡ drop block_size c
  after_block c buf n w (long, fits, all, inl full) =
      sym (drop-append_at block_size (take n buf) (remaining w) (omega (arith, length-take n buf)))
      ∙ ap (drop block_size) all
  after_block c buf n w (long, fits, all, inr over) =
      over
      ∙ sym (
          drop-eq-nil block_size c (
            omega (
              arith,
              ap length all,
              ap length over,
              length-append (take n buf) (remaining w),
              length-take n buf,
            )))

  acknowledged-Holds :
      (send : ℕ) (c buf : List ℕ) (n : ℕ) (tx : List ℕ) (ack : AckReceived Uploading) (w : World)
      → Ready c buf n w
      → send ≤ length tx
      → Consumes block_size (take n buf) ack
      → Holds {E = Error} (Advances send c) (acknowledged net ack buf n tx w)
  unfolding Holds
  acknowledged-Holds send c buf n tx (AckReceived.next_block s consumed) w ready fits all =
      let whole : consumed ≡ n = omega (arith, all, ready.0, ready.1, length-take n buf) in
      let none_left : checked_sub n consumed ≡ done 0 = ground (arith, whole) in
      rw none_left ((ready.0, omega arith, fits), inr (after_block c buf n w ready))
  acknowledged-Holds send c buf n tx AckReceived.transfer_complete w ready fits all = tt
  acknowledged-Holds send c buf n tx (AckReceived.retransmission s) w ready fits all =
      ((ready.0, ready.1, fits), inl ready.2)

  -- For a file that obeys the contract of `Read`, a socket that leaves it alone and a protocol that
  -- takes whole blocks, a round of `upload` does not panic, and the buffers stay as long as they are;
  -- if another round follows, the bytes ahead of it are the same as before, or those after a block.
  pub round-Holds :
      (datagrams : ℕ) (remote : Metadata) (send : ℕ) (u : Upload net) (w : World)
      → Intact send u
      → Holds {E = Error} (Advances send (ahead u w)) (round net datagrams remote send u w)
  round-Holds datagrams remote send u w intact =
      Rounds.round-Through net file protocol (Advances send (ahead u w)) u datagrams remote send w
        (λ received buf n ack w' ready e.
          acknowledged-Holds send (ahead u w) buf n _ ack w' ready
            (omega (arith, intact.2, protocol.length-tx u.state received u.tx (take n buf)))
            (protocol.consumes u.state received u.tx (take n buf) ack e))
        intact
