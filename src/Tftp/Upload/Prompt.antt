-- ===== src/Tftp/Upload/Prompt.antt =====
-- A round of `upload` of src/tftp.rs with a file, a socket and a remote that do their part.
use embassy_sandbox.Prelude.{
  ℕ, zero, suc, ◌+◌, ◌-◌, ◌≡◌, ◌⊎◌, inl, inr, refl, sym, ltb, leb, Bool-cases,
}
use embassy_sandbox.Prelude.{List, [], ◌∷◌, length, Outcome, done, panic, starved}
use embassy_sandbox.Tftp.Run.{Result, ok, err, returned, try, lift, map_err, slice_to, slice_from}
use embassy_sandbox.Tftp.Run.Smooth.{
  Smooth, bind-Smooth, returned-Smooth, map_err-Smooth, slice_to-Smooth, slice_from-Smooth,
}
use embassy_sandbox.Tftp.Net.{Net, TransferError, AckReceived}
use embassy_sandbox.Tftp.Fill.{overwrite, after_read, fill, fill_buf}
use embassy_sandbox.Tftp.Fill.Laws.{Reads, Filled, fill_buf-Filled}
use embassy_sandbox.Tftp.Receive.{receive, reply}
use embassy_sandbox.Tftp.Receive.Calls
use embassy_sandbox.Tftp.Receive.Calls.{answered}
use embassy_sandbox.Tftp.Upload.{Upload, Step, finished, again, acknowledged, processed, round}
use embassy_sandbox.Tftp.Upload.Contract.{Log, Prompt, Expects}
use mathlib.Core.Path.{subst}

module _ (net : Net) (file : Reads net) (log : Log net) (datagrams : ℕ) (remote : net.Metadata)
    (prompt : Prompt net datagrams remote) where
  open net use {
    World, Uploading, FileError, block_size, send_to, read, process_ack, same_endpoint, strip,
  }
  open prompt use {awaits, heard}

  abbrev Error : Type 0
  Error = TransferError net

  -- The block is another one, or it is the same and there is a retransmission less to come.
  abbrev Advances : ℕ → ℕ → Uploading → Uploading → Type 0
  Advances repeats less s s' =
      (log.block s' ≡ suc (log.block s)) × (less ≡ repeats)
      ⊎ (log.block s' ≡ log.block s) × (repeats ≡ suc less)

  -- Unless the loop ends, the remote awaits the next round.
  abbrev pub Goes : ℕ → Uploading → Step net → World → Type 0
  Goes repeats s finished w = Unit
  Goes repeats s (again u) w = (less : ℕ) × awaits less u.state w × Advances repeats less s u.state

  module _ (repeats : ℕ) where
    -- The file gives no error, and the protocol has heard the remote.
    Hears : Uploading → List ℕ → Outcome (Result FileError (ℕ × List ℕ) × World) → Type 0
    Hears s received (done (ok r, w)) = heard repeats s received w
    Hears s received (done (err e, w)) = ⊥
    Hears s received panic = Unit
    Hears s received starved = Unit

    module _ (s : Uploading) (received : List ℕ) where
      fill-Hears :
          (n written : ℕ) (buf : List ℕ) (w : World)
          → heard repeats s received w
          → Hears s received (fill net n written buf w)
      unfolding Hears fill
      fill-Hears zero written buf w h = elim (Bool-cases (ltb written (length buf))) [
        | inl more ↦ rw more tt
        | inr full ↦ rw full h
      ]
      fill-Hears (suc n) written buf w h = elim (Bool-cases (ltb written (length buf))) [
        | inl more ↦
            let (bytes, w', e, h') = prompt.reads repeats s received (length buf - written) w h in
            rw (more, e)
              (goes bytes w' h'
                (λ d w'' h''. fill-Hears n (written + length d) (overwrite written d buf) w'' h''))
        | inr full ↦ rw full h
      ]
        where
          goes :
              (bytes : List ℕ) (w' : World)
              → heard repeats s received w'
              → ((d : List ℕ) (w'' : World)
                  → heard repeats s received w''
                  → Hears s received
                      (fill net n (written + length d) (overwrite written d buf) w''))
              → Hears s received (
                  after_read net written buf
                    (λ d. fill net n (written + length d) (overwrite written d buf))
                    (ok bytes, w'))
          goes [] w' h' k = h'
          goes (b ∷ bytes) w' h' k = k (b ∷ bytes) w' h'

      fill_buf-Smooth :
          (buf : List ℕ) (w : World)
          → heard repeats s received w
          → Smooth (λ r w'. heard repeats s received w') (fill_buf net buf w)
      unfolding Hears fill_buf Smooth
      fill_buf-Smooth buf w h =
          both (fill_buf net buf w) (fill_buf-Filled net file buf w)
            (fill-Hears (length buf) 0 buf w h)
        where
          both :
              (o : Outcome (Result FileError (ℕ × List ℕ) × World))
              → Filled net file buf (file.remaining w) o
              → Hears s received o
              → Smooth (λ r w'. heard repeats s received w') o
          both (done (ok r, w')) f n = n
          both (done (err e, w')) f n = n
          both panic f n = tt
          both starved f n = f

    abbrev Sends : List ℕ → World → Unit {0} → World → Type 0
    Sends = Calls.Sends net remote prompt.sends

    acknowledged-Smooth :
        (s : Uploading) (received tx bytes buf : List ℕ) (n : ℕ) (ack : AckReceived Uploading)
        (w : World)
        → (process_ack s received tx bytes).0 ≡ ok ack
        → Expects awaits repeats ack w
        → (tx' : List ℕ) → Smooth {E = Error} (Goes repeats s) (acknowledged net ack buf n tx' w)
    unfolding Smooth
    acknowledged-Smooth s received tx bytes buf n (AckReceived.next_block s' k) w e expects tx' =
        let goes : Goes repeats s
            (again (record { state = s'; file_buf = buf; buf_offset = n - k; tx = tx' })) w =
          (repeats, expects, inl ((log.logs s received tx bytes _ e).3, refl)) in
        elim (Bool-cases (leb k n)) [ inl fits ↦ rw fits goes | inr over ↦ rw over tt ]
    acknowledged-Smooth s received tx bytes buf n AckReceived.transfer_complete w e expects tx' = tt
    acknowledged-Smooth s received tx bytes buf n (AckReceived.retransmission s') w e expects tx' =
        let (less, one, awaited) = expects in
        (less, awaited, inr ((log.logs s received tx bytes _ e).2, one))

    processed-Smooth :
        (u : Upload net) (received buf : List ℕ) (n : ℕ) (w : World)
        → heard repeats u.state received w
        → Smooth {E = Error} (Goes repeats u.state) (processed net remote u received buf n w)
    unfolding processed
    processed-Smooth u received buf n w h =
        bind-Smooth (λ d w'. w' ≡ w) (Goes repeats u.state) (lift (slice_to buf n)) _ w
          (slice_to-Smooth Error (λ d w'. w' ≡ w) buf n w refl)
          (λ d w1 e1.
            let p = process_ack u.state received u.tx d in
            bind-Smooth (λ t w'. w' ≡ answered net remote p.1 p.2 w1) (Goes repeats u.state)
              (reply net p.1 p.2 remote) _ w1
              (Calls.reply-Smooth net remote prompt.sends p.1 p.2 w1)
              (λ t w2 e2.
                let h1 = subst (heard repeats u.state received) (sym e1) h in
                let (ack, e, expects) = prompt.processes repeats u.state received u.tx d w1 h1 in
                bind-Smooth (λ a w'. (a ≡ ack) × (w' ≡ w2)) (Goes repeats u.state)
                  (returned (λ e. TransferError.tftp (strip e)) p.0) _ w2
                  (returned-Smooth _ (λ a w'. (a ≡ ack) × (w' ≡ w2)) p.0 w2 ack e (refl, refl))
                  (λ a w3 q.
                    rw (q.0, q.1)
                      (acknowledged-Smooth u.state received u.tx d buf n ack w2 e
                        (subst (Expects awaits repeats ack) (sym e2) expects) p.2))))

    receive-Smooth :
        (s : Uploading) (d : List ℕ) (w w' : World)
        → awaits repeats s w
        → Sends d w tt w'
        → Smooth {E = Error}
            (λ r w''. heard repeats s r w'')
            (receive net datagrams (λ sender. same_endpoint sender remote) w')
    receive-Smooth s d w w' a e =
        let (k, received, w'', arrives, soon, h) = prompt.answers repeats s d w a in
        rw e (
          Calls.receive-Smooth net remote prompt.sends (λ r w''. heard repeats s r w'')
            (λ sender. same_endpoint sender remote) datagrams k received _ w'' arrives soon h)

    -- The remote awaits a round, so the round returns `Ok` unless it panics.
    pub round-Smooth :
        (send : ℕ) (u : Upload net) (w : World)
        → awaits repeats u.state w
        → Smooth {E = Error} (Goes repeats u.state) (round net datagrams remote send u w)
    unfolding round
    round-Smooth send u w a =
        bind-Smooth (λ d w'. w' ≡ w) (Goes repeats u.state) (lift (slice_to u.tx send)) _ w
          (slice_to-Smooth Error (λ d w'. w' ≡ w) u.tx send w refl)
          (λ d w1 e1.
            bind-Smooth (Sends d w1) (Goes repeats u.state)
              (try TransferError.send (send_to d remote)) _ w1
              (Calls.try_send-Smooth net remote prompt.sends d w1)
              (λ t w2 e2.
                bind-Smooth (λ r w'. heard repeats u.state r w') (Goes repeats u.state)
                  (receive net datagrams (λ sender. same_endpoint sender remote)) _ w2
                  (receive-Smooth u.state d w1 w2 (subst (awaits repeats u.state) (sym e1) a) e2)
                  (λ r w3 h3.
                    bind-Smooth (λ space w'. w' ≡ w3) (Goes repeats u.state)
                      (lift (slice_from u.file_buf u.buf_offset)) _ w3
                      (slice_from-Smooth Error (λ space w'. w' ≡ w3) u.file_buf u.buf_offset w3
                        refl)
                      (λ space w4 e4.
                        bind-Smooth (λ f w'. heard repeats u.state r w') (Goes repeats u.state)
                          (map_err TransferError.file (fill_buf net space)) _ w4
                          (map_err-Smooth TransferError.file _ (fill_buf net space) w4 (
                            fill_buf-Smooth u.state r space w4
                              (subst (heard repeats u.state r) (sym e4) h3)))
                          (λ f w5 h5. processed-Smooth u r _ _ w5 h5)))))
