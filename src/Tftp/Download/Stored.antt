-- ===== src/Tftp/Download/Stored.antt =====
-- The file that `download` of src/tftp.rs leaves.
use embassy_sandbox.Prelude.{ℕ, ◌≤◌, ◌≡◌, refl, sym, ◌∙◌, ap, arith, List, [], ◌++◌, length, done}
use mathlib.Core.List.{append_assoc, append-nil}
use embassy_sandbox.Tftp.Run.{ok, returned, try, lift, slice_to}
use embassy_sandbox.Tftp.Run.Holds.{
  Holds, Holds-weaken, bind-Holds, returned-Holds, try-Holds, slice_to-Holds,
}
use embassy_sandbox.Tftp.Net.{Net, TransferError, BlockReceived}
use embassy_sandbox.Tftp.Receive.{receive, reply}
use embassy_sandbox.Tftp.Receive.Keeps
use embassy_sandbox.Tftp.Receive.Keeps.{Fits}
use embassy_sandbox.Tftp.Download.{Download, Step, finished, again, stored, round}

-- What a block says of the bytes that the protocol has got.
abbrev pub Got : {S : Type 0} → (S → List ℕ) → S → BlockReceived S → Type 0
Got got s (BlockReceived.intermediate s' block) = got s' ≡ got s ++ block
Got got s (BlockReceived.final block) = Unit
Got got s (BlockReceived.retransmission s') = got s' ≡ got s

-- What `download` relies on in the protocol crate, the socket and the file.
pub record Contract (net : Net) : Type 0 where
  -- The bytes that were written to the file.
  pub written : net.World → List ℕ
  pub send_keeps :
      (d : List ℕ) (m : net.Metadata) (w : net.World) → written (net.send_to d m w).1 ≡ written w
  pub recv_keeps : (n : ℕ) (w : net.World) → written (net.recv_from n w).1 ≡ written w
  pub writes :
      (block : List ℕ) (w : net.World)
      → (net.write_all block w).0 ≡ ok tt
      → written (net.write_all block w).1 ≡ written w ++ block
  -- The bytes of the blocks that were received.
  pub got : net.Downloading → List ℕ
  pub got_first :
      (tx : List ℕ) (name : net.Filename) (s : net.Downloading) (n : ℕ)
      → (net.new_download tx name net.octect).0 ≡ ok (s, n)
      → (got s ≡ []) × (n ≤ length (net.new_download tx name net.octect).1)
  pub gets :
      (s : net.Downloading) (received tx : List ℕ) (block : BlockReceived net.Downloading)
      → (net.process_block s received tx).0 ≡ ok block
      → Got got s block
  pub length-tx :
      (s : net.Downloading) (received tx : List ℕ)
      → length (net.process_block s received tx).2 ≡ length tx
  pub answer_fits :
      (s : net.Downloading) (received tx : List ℕ)
      → Fits (net.process_block s received tx).1 (net.process_block s received tx).2

module _ (net : Net) (contract : Contract net) where
  open net use {
    World, Metadata, Filename, Downloading, send_to, write_all, process_block, same_metadata, strip,
    new_download, octect,
  }
  open contract use {written, got}

  abbrev Error : Type 0
  Error = TransferError net

  abbrev Still : {A : Type 0} → World → A → World → Type 0
  Still w r w' = written w' ≡ written w

  -- The blocks that were received are in the file, behind what was in it.
  abbrev pub Stored : ℕ → List ℕ → Download net → World → Type 0
  Stored send whole d w = (send ≤ length d.tx) × (written w ≡ whole ++ got d.state)

  -- What a round makes of that: if it is the last one, the final block that the protocol had is
  -- behind them.
  abbrev pub After : ℕ → List ℕ → Download net → Step net → World → Type 0
  After send whole d finished w =
      (received : List ℕ) × (block : List ℕ) × ((process_block d.state received d.tx).0
        ≡ ok (BlockReceived.final block))
      × (written w ≡ whole ++ (got d.state ++ block))
  After send whole d (again d') w = Stored send whole d' w

  module _ (send : ℕ) (whole : List ℕ) (d : Download net) where
    written-Holds :
        (block : List ℕ) (w : World)
        → written w ≡ whole ++ got d.state
        → Holds {E = Error}
            (λ t w'. written w' ≡ whole ++ (got d.state ++ block))
            (try TransferError.file (write_all block) w)
    written-Holds block w e =
        returned-Holds TransferError.file _ (write_all block w).0 _ (λ t saved.
          contract.writes block w saved
          ∙ ap (λ xs. xs ++ block) e
          ∙ append_assoc whole (got d.state) block)

    stored-After :
        (received tx : List ℕ) (block : BlockReceived Downloading) (w : World)
        → written w ≡ whole ++ got d.state
        → send ≤ length tx
        → (process_block d.state received d.tx).0 ≡ ok block
        → Got got d.state block
        → Holds {E = Error} (After send whole d) (stored net block tx w)
    stored-After received tx (BlockReceived.intermediate s block) w e fits q g =
        bind-Holds (λ t w'. written w' ≡ whole ++ (got d.state ++ block)) (After send whole d)
          (try TransferError.file (write_all block)) _ w (written-Holds block w e)
          (λ t w' more. unfold Holds in (fits, more ∙ ap (λ xs. whole ++ xs) (sym g)))
    stored-After received tx (BlockReceived.final block) w e fits q g =
        bind-Holds (λ t w'. written w' ≡ whole ++ (got d.state ++ block)) (After send whole d)
          (try TransferError.file (write_all block)) _ w (written-Holds block w e)
          (λ t w' more. unfold Holds in (received, block, q, more))
    stored-After received tx (BlockReceived.retransmission s) w e fits q g =
        unfold Holds in (fits, e ∙ ap (λ xs. whole ++ xs) (sym g))

    pub round-After :
        (datagrams : ℕ) (remote : Metadata) (w : World)
        → Stored send whole d w
        → Holds {E = Error} (After send whole d) (round net datagrams remote send d w)
    unfolding round
    round-After datagrams remote w (fits, e) =
        bind-Holds (Still w) (After send whole d) (lift (slice_to d.tx send)) _ w
          (slice_to-Holds Error (Still w) d.tx send w fits refl)
          (λ datagram w1 s1.
            bind-Holds (Still w) (After send whole d)
              (try TransferError.send (send_to datagram remote)) _ w1
              (try-Holds {E = Error} TransferError.send (Still w) (send_to datagram remote) w1
                (λ t. contract.send_keeps datagram remote w1 ∙ s1))
              (λ t w2 s2.
                bind-Holds (Still w) (After send whole d)
                  (receive net datagrams (λ sender. same_metadata sender remote)) _ w2
                  (Holds-weaken {P = Still w2} {Q = Still w} _
                    (Keeps.receive-Holds net written contract.send_keeps contract.recv_keeps
                      datagrams _ w2)
                    (λ r w3 k. k ∙ s2))
                  (λ received w3 s3.
                    let p = process_block d.state received d.tx in
                    bind-Holds (Still w) (After send whole d) (reply net p.1 p.2 remote) _ w3
                      (Holds-weaken {P = Still w3} {Q = Still w} _
                        (Keeps.reply-Holds net written contract.send_keeps contract.recv_keeps p.1
                          p.2 remote w3 (contract.answer_fits d.state received d.tx))
                        (λ t w4 k. k ∙ s3))
                      (λ t w4 s4.
                        bind-Holds (λ block w5. (p.0 ≡ ok block) × Still w block w5)
                          (After send whole d) (returned (λ e. TransferError.tftp (strip e)) p.0) _
                          w4
                          (returned-Holds {E = Error} _
                            (λ block w5. (p.0 ≡ ok block) × Still w block w5) p.0 w4
                            (λ block q. (q, s4)))
                          (λ block w5 q.
                            stored-After received p.2 block w5 (q.1 ∙ e)
                              (omega (arith, fits, contract.length-tx d.state received d.tx)) q.0
                              (contract.gets d.state received d.tx block q.0))))))

  -- The states of the loop that rounds lead to.
  pub data Follows (datagrams : ℕ) (remote : Metadata) (send : ℕ) (start : Download net × World)
      : Download net → World → Type 0 where
    at_start : Follows datagrams remote send start start.0 start.1
    later :
        {d d' : Download net} {w w' : World}
        → Follows datagrams remote send start d w
        → round net datagrams remote send d w ≡ done (ok (again d'), w')
        → Follows datagrams remote send start d' w'

  Follows-Stored :
      {datagrams : ℕ} {remote : Metadata} {send : ℕ} {start : Download net × World}
      {d : Download net} {w : World} (whole : List ℕ)
      → Stored send whole start.0 start.1
      → Follows datagrams remote send start d w
      → Stored send whole d w
  unfolding Holds
  Follows-Stored whole c at_start = c
  Follows-Stored {datagrams} {remote} {send} whole c (later {d} {d'} {w} {w'} f e) =
      rw e at (round-After send whole d datagrams remote w (Follows-Stored whole c f))

  pub start-Stored :
      (name : Filename) (tx : List ℕ) (w0 : World) (s : Downloading) (send : ℕ)
      → (new_download tx name octect).0 ≡ ok (s, send)
      → Stored send (written w0) (record { state = s; tx = (new_download tx name octect).1 }) w0
  start-Stored name tx w0 s send made =
      let (none_got, fits) = contract.got_first tx name s send made in
      (fits, sym (append-nil (written w0)) ∙ ap (λ xs. written w0 ++ xs) (sym none_got))

  -- With a protocol that tells its blocks, a socket that leaves the file alone and a file that takes
  -- what is written: no round of a download panics, however many there were before it, and what they
  -- wrote to the file is the blocks that the protocol has got, each once and in order, and if the
  -- round ends the loop, the final block behind them.
  pub download-After :
      (datagrams : ℕ) (remote : Metadata) (name : Filename) (tx : List ℕ) (w0 : World)
      (s : Downloading) (send : ℕ) (d : Download net) (w : World)
      → (new_download tx name octect).0 ≡ ok (s, send)
      → Follows datagrams remote send
          ((record { state = s; tx = (new_download tx name octect).1 }), w0)
          d
          w
      → Stored send (written w0) d w
        × Holds {E = Error} (After send (written w0) d) (round net datagrams remote send d w)
  download-After datagrams remote name tx w0 s send d w made f =
      let here = Follows-Stored (written w0) (start-Stored name tx w0 s send made) f in
      (here, round-After send (written w0) d datagrams remote w here)
