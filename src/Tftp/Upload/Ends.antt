-- ===== src/Tftp/Upload/Ends.antt =====
-- `upload` of src/tftp.rs as a whole.
use embassy_sandbox.Prelude.{ℕ, zero, suc, ◌≤◌, ◌≡◌, arith, true, leb, List, length, Outcome}
use embassy_sandbox.Tftp.Run.{Result, ok, returned}
use embassy_sandbox.Tftp.Run.Holds.{Holds, bind-Holds, returned-Holds}
use embassy_sandbox.Tftp.Net.{Net, TransferError}
use embassy_sandbox.Tftp.Fill.Laws.{Reads}
use embassy_sandbox.Tftp.Upload.{Upload, Step, finished, again, round, after_round, rounds, upload}
use embassy_sandbox.Tftp.Upload.Contract.{Protocol}
use embassy_sandbox.Tftp.Upload.Rounds.{Intact, ahead}
use embassy_sandbox.Tftp.Upload.Stream.{Advances, round-Holds}

module _ (net : Net) (file : Reads net) (protocol : Protocol net file) where
  open net use {
    World, Metadata, Filename, block_size, packet_size, payload_recv_capacity, new_upload, octect,
  }

  abbrev Error : Type 0
  Error = TransferError net

  abbrev pub Anything : Unit {0} → World → Type 0
  Anything t w = Unit

  after_round-Holds :
      (go : Upload net → World → Outcome (Result Error (Unit {0}) × World)) (send : ℕ) (c : List ℕ)
      → ((u : Upload net) (w : World)
          → Intact net file protocol send u
          → Holds {E = Error} Anything (go u w))
      → (step : Step net) (w : World) → Advances net file protocol send c step w
      → Holds {E = Error} Anything (after_round net go step w)
  after_round-Holds go send c h finished w a = unfold Holds in tt
  after_round-Holds go send c h (again u) w a = h u w a.0

  rounds-Holds :
      (n datagrams : ℕ) (remote : Metadata) (send : ℕ) (u : Upload net) (w : World)
      → Intact net file protocol send u
      → Holds {E = Error} Anything (rounds net n datagrams remote send u w)
  unfolding rounds
  rounds-Holds zero datagrams remote send u w intact = unfold Holds in tt
  rounds-Holds (suc n) datagrams remote send u w intact =
      bind-Holds (Advances net file protocol send (ahead net file protocol u w)) Anything
        (round net datagrams remote send u) _ w
        (round-Holds net file protocol datagrams remote send u w intact)
        (after_round-Holds (rounds net n datagrams remote send) send _
          (λ u' w' i. rounds-Holds n datagrams remote send u' w' i))

  -- For a file that obeys the contract of `Read`, a socket that leaves it alone and a protocol that
  -- takes whole blocks, with a file buffer of a block, `upload` does not panic if the socket takes a
  -- whole packet.
  pub upload-Holds :
      (n datagrams : ℕ) (name : Filename) (file_buf tx : List ℕ) (remote : Metadata) (w : World)
      → length file_buf ≡ block_size
      → packet_size ≤ payload_recv_capacity w
      → Holds {E = Error} Anything (upload net n datagrams name file_buf tx remote w)
  unfolding upload
  upload-Holds n datagrams name file_buf tx remote w long enough =
      let fits : leb packet_size (payload_recv_capacity w) ≡ true = ground arith in
      let made = new_upload tx name octect in
      rw fits (
        bind-Holds (λ started w'. made.0 ≡ ok started) Anything
          (returned TransferError.filename made.0) _ w
          (returned-Holds {E = Error} _ (λ started w'. made.0 ≡ ok started) made.0 w (λ a q. q))
          (λ started w' q.
            rounds-Holds n datagrams remote started.1 _ w'
              (long, omega arith, protocol.first_packet tx name started.0 started.1 q)))
