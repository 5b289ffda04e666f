-- ===== src/Tftp/Download/Reaches.antt =====
-- `download` of src/tftp.rs comes to the end of the file, and then to its `todo!()`.
use embassy_sandbox.Prelude.{ℕ, zero, suc, ◌≤◌, ◌≡◌, refl, arith, true, leb, List, done, panic}
use embassy_sandbox.Tftp.Run.{ok}
use embassy_sandbox.Tftp.Run.Smooth.{Smooth-returns}
use embassy_sandbox.Tftp.Net.{Net}
use embassy_sandbox.Tftp.Download.{Download, Step, finished, again, round, rounds, download}
use embassy_sandbox.Tftp.Download.Stored.{Contract}
use embassy_sandbox.Tftp.Download.Stored
use embassy_sandbox.Tftp.Download.Prompt

module _ (net : Net) (contract : Contract net) (datagrams : ℕ) (remote : net.Metadata)
    (prompt : Prompt.Prompt net datagrams remote) where
  open net use {World, Filename, packet_size, payload_recv_capacity, new_download, octect}
  open contract use {written}
  open prompt use {awaits, over}

  abbrev Goes : ℕ → Step net → World → Type 0
  Goes = Prompt.Goes net datagrams remote prompt

  abbrev After : ℕ → List ℕ → Download net → Step net → World → Type 0
  After = Stored.After net contract

  round-Returns :
      (left send : ℕ) (whole : List ℕ) (d : Download net) (w : World)
      → Stored.Stored net contract send whole d w
      → awaits left d.state w
      → (step : Step net) × (w' : World) × (round net datagrams remote send d w
          ≡ done (ok step, w'))
        × After send whole d step w'
        × Goes left step w'
  round-Returns left send whole d w held a =
      Smooth-returns (After send whole d) (Goes left) (round net datagrams remote send d w)
        (Stored.round-After net contract send whole d datagrams remote w held)
        (Prompt.round-Smooth net datagrams remote prompt left send d w a)

  -- The rounds from `start` lead to one that ends the loop, with the whole of the file written.
  abbrev pub Ends : ℕ → List ℕ → Download net × World → Type 0
  Ends send whole start =
      (d : Download net) × (w : World) × (w' : World) × Stored.Follows net contract datagrams remote
        send start d w
      × (round net datagrams remote send d w ≡ done (ok finished, w'))
      × After send whole d finished w'
      × over w'

  rounds-Ends :
      (left send : ℕ) (whole : List ℕ) (start : Download net × World) (d : Download net) (w : World)
      → Stored.Follows net contract datagrams remote send start d w
      → Stored.Stored net contract send whole d w
      → awaits left d.state w
      → Ends send whole start × (rounds net (suc left) datagrams remote send d w ≡ panic)
  unfolding rounds
  rounds-Ends zero send whole start d w f held a = goes (round-Returns zero send whole d w held a)
    where
      goes :
          ((step : Step net) × (w' : World) × (round net datagrams remote send d w
              ≡ done (ok step, w'))
            × After send whole d step w'
            × Goes zero step w')
          → Ends send whole start × (rounds net 1 datagrams remote send d w ≡ panic)
      goes (finished, w', e, after, g) = ((d, w, w', f, e, after, g), rw e refl)
      goes (again d', w', e, after, g) = absurd g
  rounds-Ends (suc left) send whole start d w f held a =
      goes (round-Returns (suc left) send whole d w held a)
        (λ d' w' f' held' a'. rounds-Ends left send whole start d' w' f' held' a')
    where
      goes :
          ((step : Step net) × (w' : World) × (round net datagrams remote send d w
              ≡ done (ok step, w'))
            × After send whole d step w'
            × Goes (suc left) step w')
          → ((d' : Download net) (w' : World)
              → Stored.Follows net contract datagrams remote send start d' w'
              → Stored.Stored net contract send whole d' w'
              → awaits left d'.state w'
              → Ends send whole start × (rounds net (suc left) datagrams remote send d' w' ≡ panic))
          → Ends send whole start × (rounds net (suc (suc left)) datagrams remote send d w ≡ panic)
      goes (finished, w', e, after, g) ih = absurd g
      goes (again d', w', e, after, g) ih =
          let (ends, panics) = ih d' w' (Stored.Follows.later f e) after g in (ends, rw e panics)

  -- With a file and a socket that give no error, a protocol that tells its blocks, and a remote that
  -- sends `left` whole blocks and a final one: the rounds of `download` lead to one that ends its loop
  -- with all the blocks written to the file, in order, and within `left + 1` rounds `download` panics,
  -- if the socket takes a whole packet.
  pub download-Ends :
      (left : ℕ) (name : Filename) (tx : List ℕ) (w0 : World) (s : net.Downloading) (send : ℕ)
      → packet_size ≤ payload_recv_capacity w0
      → (new_download tx name octect).0 ≡ ok (s, send)
      → awaits left s w0
      → Ends send (written w0) ((record { state = s; tx = (new_download tx name octect).1 }), w0)
        × (download net (suc left) datagrams name tx remote w0 ≡ panic)
  unfolding download
  download-Ends left name tx w0 s send enough made a =
      let fits : leb packet_size (payload_recv_capacity w0) ≡ true = ground arith in
      let (ends, panics) =
        rounds-Ends left send (written w0) _ _ w0 Stored.Follows.at_start
          (Stored.start-Stored net contract name tx w0 s send made) a in
      (ends, rw (fits, made) panics)
