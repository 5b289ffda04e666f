-- ===== src/Tftp/Upload/Delivers.antt =====
-- `upload` of src/tftp.rs delivers the file: it returns `Ok`, and not before the protocol has all of it.
use embassy_sandbox.Prelude.{ℕ, zero, suc, ◌+◌, ◌*◌, ◌≤◌, ◌<◌, ◌≡◌, refl, ◌∙◌, ap, arith, leb, true}
use embassy_sandbox.Prelude.{List, length, Outcome, done, panic, starved}
use embassy_sandbox.Prelude
use embassy_sandbox.Tftp.Run.{Result, ok, err, next}
use embassy_sandbox.Tftp.Net.{Net, TransferError}
use embassy_sandbox.Tftp.Fill.Laws.{Reads}
use embassy_sandbox.Tftp.Upload.{Upload, Step, finished, again, round, after_round, rounds, upload}
use embassy_sandbox.Tftp.Upload.Contract.{Protocol, Log, Prompt}
use embassy_sandbox.Tftp.Upload.Sent.{Follows, upload-Sent}
use embassy_sandbox.Tftp.Upload.Completes.{upload-Succeeds}

module _ (net : Net) (file : Reads net) (protocol : Protocol net file) (log : Log net)
    (datagrams : ℕ) (remote : net.Metadata) where
  open net use {
    World, Filename, Uploading, block_size, packet_size, payload_recv_capacity, octect, new_upload,
  }

  abbrev Error : Type 0
  Error = TransferError net

  abbrev Led : ℕ → Upload net × World → Upload net → World → Type 0
  Led send start = Follows net file protocol log datagrams remote send start

  -- The rounds lead to one that ends the loop, in that world.
  abbrev pub Ended : ℕ → Upload net × World → World → Type 0
  Ended send start w' =
      (u : Upload net) × (w : World) × Led send start u w
      × (round net datagrams remote send u w ≡ done (ok finished, w'))

  -- Rounds that return `Ok` ended the loop.
  rounds-Ended :
      (n send : ℕ) (start : Upload net × World) (u : Upload net) (w w' : World)
      → Led send start u w
      → rounds net n datagrams remote send u w ≡ done (ok tt, w')
      → Ended send start w'
  unfolding rounds
  rounds-Ended zero send start u w w' led e = absurd (ground arith)
  rounds-Ended (suc n) send start u w w' led e =
      led_on (round net datagrams remote send u w) refl
        (λ u1 w1 led1 e1. rounds-Ended n send start u1 w1 w' led1 e1) e
    where
      led_on :
          (o : Outcome (Result Error (Step net) × World))
          → round net datagrams remote send u w ≡ o
          → ((u1 : Upload net) (w1 : World)
              → Led send start u1 w1
              → rounds net n datagrams remote send u1 w1 ≡ done (ok tt, w')
              → Ended send start w')
          → Prelude.◌>>=◌ o (next (after_round net (rounds net n datagrams remote send)))
            ≡ done (ok tt, w')
          → Ended send start w'
      led_on (done (ok finished, w1)) e1 ih e2 =
          let same : w1 ≡ w' = cc in (u, w, led, e1 ∙ ap (λ v. done (ok finished, v)) same)
      led_on (done (ok (again u1), w1)) e1 ih e2 = ih u1 w1 (Follows.later led e1) e2
      led_on (done (err x, w1)) e1 ih e2 = absurd (ground arith)
      led_on panic e1 ih e2 = absurd (ground arith)
      led_on starved e1 ih e2 = absurd (ground arith)

  -- With a file and a socket that give no error, a protocol that takes whole blocks in order and is
  -- complete when the last, short one is acknowledged, and a remote that awaits the first packet
  -- (while it awaits one, any datagram that is sent is answered within the number of datagrams that
  -- are waited for; the protocol processes what is heard without an error, and takes it for a
  -- retransmission so many times at most; after each next block and each retransmission the remote
  -- awaits again): after at most a round for each block of the file, the last of which is a short
  -- one, a round for each retransmission, and one more, `upload` returns `Ok`, if the file buffer
  -- has the length of a block, the socket takes a whole packet and the protocol makes the first
  -- packet; and in the round that ended its loop the protocol had been given the whole file, each
  -- byte once and in order.
  pub upload-Delivers :
      (prompt : Prompt net datagrams remote) (k repeats : ℕ) (name : Filename)
      (file_buf tx : List ℕ) (w : World) (s : Uploading) (send : ℕ)
      → length file_buf ≡ block_size
      → packet_size ≤ payload_recv_capacity w
      → (new_upload tx name octect).0 ≡ ok (s, send)
      → prompt.awaits repeats s w
      → length (file.remaining w) < k * block_size
      → (w' : World) × (upload net (suc (k + repeats)) datagrams name file_buf tx remote w
          ≡ done (ok tt, w'))
        × (u : Upload net) × (w1 : World) × Led send
            (
              (record {
                state = s;
                file_buf = file_buf;
                buf_offset = 0;
                tx = (new_upload tx name octect).1;
              }),
              w,
            )
            u
            w1
        × (round net datagrams remote send u w1 ≡ done (ok finished, w'))
        × (log.sent u.state ≡ file.remaining w)
  unfolding upload
  upload-Delivers prompt k repeats name file_buf tx w s send long enough made awaits short =
      let fits : leb packet_size (payload_recv_capacity w) ≡ true = ground arith in
      let (w', e) =
        upload-Succeeds net file protocol log datagrams remote prompt k repeats name file_buf tx w s
          send long enough made awaits short in
      let start : Upload net = record {
        state = s;
        file_buf = file_buf;
        buf_offset = 0;
        tx = (new_upload tx name octect).1;
      } in
      let (u, w1, led, last) =
        rounds-Ended (suc (k + repeats)) send (start, w) start w w' Follows.at_start
          (rw (fits, made) at e) in
      let all =
        upload-Sent net file protocol log datagrams remote name file_buf tx w s send u w1 w' long
          made led last in
      (w', e, u, w1, led, last, all)
