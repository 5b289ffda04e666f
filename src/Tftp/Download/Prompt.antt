-- ===== src/Tftp/Download/Prompt.antt =====
-- A round of `download` of src/tftp.rs with a file, a socket and a remote that do their part.
use embassy_sandbox.Prelude.{ℕ, zero, suc, ◌<◌, ◌≡◌, refl, sym, List}
use mathlib.Core.Path.{subst}
use embassy_sandbox.Tftp.Run.{ok, returned, try, lift, slice_to}
use embassy_sandbox.Tftp.Run.Smooth.{Smooth, bind-Smooth, returned-Smooth, slice_to-Smooth}
use embassy_sandbox.Tftp.Net.{Net, TransferError, BlockReceived}
use embassy_sandbox.Tftp.Receive.{receive, reply}
use embassy_sandbox.Tftp.Receive.Laws.{Arrives}
use embassy_sandbox.Tftp.Receive.Calls
use embassy_sandbox.Tftp.Receive.Calls.{answered}
use embassy_sandbox.Tftp.Download.{Download, Step, finished, again, stored, round}

-- A file and a socket without errors, and a remote that sends its blocks one after the other: it
-- `awaits` the request for the next block, with so many whole blocks before the final one, and the
-- protocol has then `heard` that block.
pub record Prompt (net : Net) (datagrams : ℕ) (remote : net.Metadata) : Type 1 where
  pub awaits : ℕ → net.Downloading → net.World → Type 0
  pub heard : ℕ → net.Downloading → List ℕ → net.World → Type 0
  -- The final block has been written.
  pub over : net.World → Type 0
  pub sends : (d : List ℕ) (w : net.World) → (net.send_to d remote w).0 ≡ ok tt
  pub writes : (block : List ℕ) (w : net.World) → (net.write_all block w).0 ≡ ok tt
  pub answers :
      (left : ℕ) (s : net.Downloading) (d : List ℕ) (w : net.World)
      → awaits left s w
      → (k : ℕ) × (received : List ℕ) × (w' : net.World) × Arrives net
          (λ sender. net.same_metadata sender remote)
          received
          w'
          k
          (net.send_to d remote w).1
        × (k < datagrams)
        × heard left s received w'
  pub ends :
      (s : net.Downloading) (received tx : List ℕ) (w : net.World)
      → heard 0 s received w
      → (block : List ℕ) × ((net.process_block s received tx).0 ≡ ok (BlockReceived.final block))
        × (let p = net.process_block s received tx in
            over (net.write_all block (answered net remote p.1 p.2 w)).1)
  pub goes_on :
      (left : ℕ) (s : net.Downloading) (received tx : List ℕ) (w : net.World)
      → heard (suc left) s received w
      → (s' : net.Downloading) × (block : List ℕ) × ((net.process_block s received tx).0
          ≡ ok (BlockReceived.intermediate s' block))
        × (let p = net.process_block s received tx in
            awaits left s' (net.write_all block (answered net remote p.1 p.2 w)).1)

module _ (net : Net) (datagrams : ℕ) (remote : net.Metadata)
    (prompt : Prompt net datagrams remote) where
  open net use {World, Downloading, send_to, write_all, process_block, same_metadata, strip}
  open prompt use {awaits, heard, over}

  abbrev Error : Type 0
  Error = TransferError net

  -- The loop ends with the final block, and before that the remote awaits the next round.
  abbrev pub Goes : ℕ → Step net → World → Type 0
  Goes zero finished w = over w
  Goes zero (again d) w = ⊥
  Goes (suc left) finished w = ⊥
  Goes (suc left) (again d) w = awaits left d.state w

  abbrev Sends : List ℕ → World → Unit {0} → World → Type 0
  Sends = Calls.Sends net remote prompt.sends

  stored-Smooth :
      (left : ℕ) (s : Downloading) (received tx tx' : List ℕ) (w w' : World)
      → heard left s received w
      → w' ≡ answered net remote (process_block s received tx).1 (process_block s received tx).2 w
      → (block : BlockReceived Downloading) × ((process_block s received tx).0 ≡ ok block)
        × Smooth {E = Error} (Goes left) (stored net block tx' w')
  stored-Smooth zero s received tx tx' w w' h q =
      let (block, e, last) = prompt.ends s received tx w h in
      let P : Unit {0} → World → Type 0 = λ t w''. over w'' in
      (
        BlockReceived.final block,
        e,
        bind-Smooth P (Goes zero) (try TransferError.file (write_all block)) _ w'
            (returned-Smooth TransferError.file P (write_all block w').0 _ tt
              (prompt.writes block w') (subst (λ v. over (write_all block v).1) (sym q) last))
            (λ t w'' o. unfold Smooth in o),
      )
  stored-Smooth (suc left) s received tx tx' w w' h q =
      let (s', block, e, more) = prompt.goes_on left s received tx w h in
      let P : Unit {0} → World → Type 0 = λ t w''. awaits left s' w'' in
      (
        BlockReceived.intermediate s' block,
        e,
        bind-Smooth P (Goes (suc left)) (try TransferError.file (write_all block)) _ w'
            (returned-Smooth TransferError.file P (write_all block w').0 _ tt
              (prompt.writes block w')
              (subst (λ v. awaits left s' (write_all block v).1) (sym q) more))
            (λ t w'' a. unfold Smooth in a),
      )

  -- The remote awaits a round, so the round returns `Ok` unless it panics.
  pub round-Smooth :
      (left send : ℕ) (d : Download net) (w : World)
      → awaits left d.state w
      → Smooth {E = Error} (Goes left) (round net datagrams remote send d w)
  unfolding round
  round-Smooth left send d w a =
      bind-Smooth (λ x w'. w' ≡ w) (Goes left) (lift (slice_to d.tx send)) _ w
        (slice_to-Smooth Error (λ x w'. w' ≡ w) d.tx send w refl)
        (λ datagram w1 e1.
          bind-Smooth (Sends datagram w1) (Goes left)
            (try TransferError.send (send_to datagram remote)) _ w1
            (Calls.try_send-Smooth net remote prompt.sends datagram w1)
            (λ t w2 e2.
              let (k, received, w3, arrives, soon, h) =
                prompt.answers left d.state datagram w1 (subst (awaits left d.state) (sym e1) a) in
              let p = process_block d.state received d.tx in
              bind-Smooth (λ r w'. (r ≡ received) × (w' ≡ w3)) (Goes left)
                (receive net datagrams (λ sender. same_metadata sender remote)) _ w2
                (rw e2 (
                  Calls.receive-Smooth net remote prompt.sends (λ r w'. (r ≡ received) × (w' ≡ w3))
                    (λ sender. same_metadata sender remote) datagrams k received _ w3 arrives soon
                    (refl, refl)))
                (λ r w3' e3.
                  rw (e3.0, e3.1)
                    (bind-Smooth (λ t w'. w' ≡ answered net remote p.1 p.2 w3) (Goes left)
                      (reply net p.1 p.2 remote) _ w3
                      (Calls.reply-Smooth net remote prompt.sends p.1 p.2 w3)
                      (λ t w4 e4.
                        let (block, e, smooth) =
                          stored-Smooth left d.state received d.tx p.2 w3 w4 h e4 in
                        bind-Smooth (λ b w'. (b ≡ block) × (w' ≡ w4)) (Goes left)
                          (returned (λ e. TransferError.tftp (strip e)) p.0) _ w4
                          (returned-Smooth _ (λ b w'. (b ≡ block) × (w' ≡ w4)) p.0 w4 block e
                            (refl, refl))
                          (λ b w5 q. rw (q.0, q.1) smooth))))))
