-- ===== src/Tftp/Upload/Rounds.antt =====
-- A round of `upload` of src/tftp.rs: what its calls leave alone, and what is in the buffer when the
-- protocol reads it.
use Prim.Native.Nat.{min}
use embassy_sandbox.Prelude.{ℕ, ◌+◌, ◌≤◌, ◌≡◌, ◌⊎◌, inl, inr, refl, sym, ◌∙◌, ap, arith}
use embassy_sandbox.Prelude.{Bool, Option, List, [], ◌++◌, length, take, drop}
use embassy_sandbox.Prelude.{Outcome, done, panic, starved}
use embassy_sandbox.Prelude.{
  le_or_lt, take-append_add, length-take, length-drop, length-append, drop-eq-nil,
}
use mathlib.Core.Path.{subst}
use mathlib.Core.List.{append_assoc}
use embassy_sandbox.Tftp.Run.{
  Result, ok, err, returned, try, lift, map_err, slice_to, slice_from, ◌>>=◌,
}
use embassy_sandbox.Tftp.Run.Holds.{
  Holds, Holds-weaken, bind-Holds, returned-Holds, try-Holds, map_err-Holds, slice_to-Holds,
  slice_from-Holds,
}
use embassy_sandbox.Tftp.Net.{Net, TransferError, AckReceived}
use embassy_sandbox.Tftp.Fill.{fill_buf}
use embassy_sandbox.Tftp.Fill.Laws.{Reads, Filled, fill_buf-Filled}
use embassy_sandbox.Tftp.Receive.{receive, reply}
use embassy_sandbox.Tftp.Receive.Keeps
use embassy_sandbox.Tftp.Receive.Keeps.{Fits}
use embassy_sandbox.Tftp.Upload.{Upload, Step, acknowledged, processed, round}
use embassy_sandbox.Tftp.Upload.Contract.{Protocol}

module _ (net : Net) (file : Reads net) (protocol : Protocol net file) where
  open net use {
    World, Metadata, Uploading, block_size, send_to, recv_from, packet_size, process_ack, strip,
    same_endpoint,
  }
  open file use {remaining}

  abbrev Error : Type 0
  Error = TransferError net

  -- The bytes that are still to be acknowledged: those in the buffer, then those of the file.
  abbrev pub ahead : Upload net → World → List ℕ
  ahead u w = take u.buf_offset u.file_buf ++ remaining w

  -- The buffers are as long as they are, and the first packet fits.
  abbrev pub Intact : ℕ → Upload net → Type 0
  Intact send u =
      (length u.file_buf ≡ block_size) × (u.buf_offset ≤ block_size) × (send ≤ length u.tx)

  -- The file has as many bytes to come as before.
  abbrev Still : {A : Type 0} → World → A → World → Type 0
  Still w r w' = remaining w' ≡ remaining w

  receive-Holds :
      (n : ℕ) (accepts : Metadata → Bool) (w : World)
      → Holds {E = Error} (Still w) (receive net n accepts w)
  receive-Holds = Keeps.receive-Holds net remaining protocol.send_keeps protocol.recv_keeps

  reply-Holds :
      (answer : Option ℕ) (tx : List ℕ) (m : Metadata) (w : World)
      → Fits answer tx
      → Holds {E = Error} (Still w) (reply net answer tx m w)
  reply-Holds = Keeps.reply-Holds net remaining protocol.send_keeps protocol.recv_keeps

  -- The buffer is filled up to `n`, as far as the file goes, and the bytes `c` are ahead.
  abbrev pub Ready : List ℕ → List ℕ → ℕ → World → Type 0
  Ready c buf n w =
      (length buf ≡ block_size)
      × (n ≤ block_size)
      × (take n buf ++ remaining w ≡ c)
      × ((n ≡ block_size) ⊎ (remaining w ≡ []))

  Ready-Still :
      (c buf : List ℕ) (n : ℕ) {w w' : World}
      → Ready c buf n w
      → remaining w' ≡ remaining w
      → Ready c buf n w'
  Ready-Still c buf n (long, fits, all, end) e = (
    long,
    fits,
    ap (λ r. take n buf ++ r) e ∙ all,
    elim end [ inl full ↦ inl full | inr over ↦ inr (e ∙ over) ],
  )

  -- What `fill_buf` made of the space behind the bytes in the buffer.
  abbrev Took : List ℕ → List ℕ → ℕ × List ℕ → World → Type 0
  Took space c (n, part) w =
      (n ≡ min (length space) (length c))
      × (take n part ++ remaining w ≡ c)
      × (length part ≡ length space)

  Filled-Holds :
      (space c : List ℕ) (o : Outcome (Result net.FileError (ℕ × List ℕ) × World))
      → Filled net file space c o
      → Holds (Took space c) o
  unfolding Holds
  Filled-Holds space c (done (ok (n, part), w)) f = (f.0, f.1, f.3)
  Filled-Holds space c (done (err e, w)) f = tt
  Filled-Holds space c panic f = absurd f
  Filled-Holds space c starved f = tt

  Took-Ready :
      (send : ℕ) (u : Upload net) (n : ℕ) (part : List ℕ) (w w' : World)
      → Intact send u
      → Took (drop u.buf_offset u.file_buf) (remaining w) (n, part) w'
      → Ready (ahead u w) (take u.buf_offset u.file_buf ++ part) (u.buf_offset + n) w'
  Took-Ready send u n part w w' intact (count, all, long) =
      let front = take u.buf_offset u.file_buf in
      let fronts = length-take u.buf_offset u.file_buf in
      let spaces = length-drop u.buf_offset u.file_buf in
      let at : u.buf_offset ≡ length front = omega (arith, fronts, intact.0, intact.1) in
      let left = ap length all in
      (
        omega (arith, length-append front part, at, spaces, intact.0, intact.1, long),
        omega (arith, spaces, intact.0, intact.1, count),
        ap (λ r. r ++ remaining w') (take-append_add u.buf_offset n front part at)
            ∙ append_assoc front (take n part) (remaining w')
            ∙ ap (λ r. front ++ r) all,
        elim (le_or_lt (length (drop u.buf_offset u.file_buf)) (length (remaining w))) [
          | inl full ↦ inl (omega (arith, spaces, intact.0, intact.1, count, full))
          | inr over ↦ inr (
              drop-eq-nil 0 (remaining w') (
                omega (
                  arith,
                  count,
                  over,
                  left,
                  long,
                  length-append (take n part) (remaining w'),
                  length-take n part,
                )))
        ],
      )

  -- `Q` holds for what the `match` on an acknowledgement makes of the bytes `c` ahead of a round: the
  -- protocol was handed the filled part of the buffer.
  abbrev pub Acknowledges : (Step net → World → Type 0) → Upload net → List ℕ → Type 0
  Acknowledges Q u c =
      (received buf : List ℕ) (n : ℕ) (ack : AckReceived Uploading) (w : World)
      → Ready c buf n w
      → (process_ack u.state received u.tx (take n buf)).0 ≡ ok ack
      → Holds {E = Error} Q
          (acknowledged net ack buf n (process_ack u.state received u.tx (take n buf)).2 w)

  module _ (Q : Step net → World → Type 0) (u : Upload net) where
    processed-Holds :
        (remote : Metadata) (received c buf : List ℕ) (n : ℕ) (w : World)
        → Acknowledges Q u c
        → Ready c buf n w
        → Holds {E = Error} Q (processed net remote u received buf n w)
    unfolding processed
    processed-Holds remote received c buf n w h ready =
        bind-Holds (λ d w'. (d ≡ take n buf) × Still w d w') Q (lift (slice_to buf n)) _ w
          (slice_to-Holds Error (λ d w'. (d ≡ take n buf) × Still w d w') buf n w
            (omega (arith, ready.0, ready.1)) (refl, refl))
          (λ d w' same.
            let p = process_ack u.state received u.tx d in
            bind-Holds (Still w) Q (reply net p.1 p.2 remote) _ w'
              (Holds-weaken {P = Still w'} {Q = Still w} _
                (reply-Holds p.1 p.2 remote w' (protocol.answer_fits u.state received u.tx d))
                (λ t w'' e. e ∙ same.1))
              (λ t w'' still.
                bind-Holds (λ ack w3. (p.0 ≡ ok ack) × Still w ack w3) Q
                  (returned (λ e. TransferError.tftp (strip e)) p.0) _ w''
                  (returned-Holds {E = Error} _ (λ ack w3. (p.0 ≡ ok ack) × Still w ack w3) p.0 w''
                    (λ ack q. (q, still)))
                  (λ ack w3 q.
                    subst
                      (λ d.
                        (process_ack u.state received u.tx d).0 ≡ ok ack
                        → Holds {E = Error} Q
                            (acknowledged net ack buf n (process_ack u.state received u.tx d).2 w3))
                      (sym same.0) (h received buf n ack w3 (Ready-Still c buf n ready q.1)) q.0)))

    filled-Holds :
        (remote : Metadata) (send : ℕ) (received : List ℕ) (w w' : World)
        → Acknowledges Q u (ahead u w)
        → Intact send u
        → remaining w' ≡ remaining w
        → Holds {E = Error} Q (
            (lift (slice_from u.file_buf u.buf_offset) >>= λ space.
            map_err TransferError.file (fill_buf net space) >>= λ r.
            processed net remote u received
              (take u.buf_offset u.file_buf ++ r.1)
              (u.buf_offset + r.0))
              w')
    filled-Holds remote send received w w' h intact still =
        let c = ahead u w in
        let space = drop u.buf_offset u.file_buf in
        bind-Holds (λ s w1. (s ≡ space) × Still w s w1) Q
          (lift (slice_from u.file_buf u.buf_offset)) _ w'
          (slice_from-Holds Error (λ s w1. (s ≡ space) × Still w s w1) u.file_buf u.buf_offset w'
            (omega (arith, intact.0, intact.1)) (refl, still))
          (λ s w1 e.
            bind-Holds (Took s (remaining w1)) Q (map_err TransferError.file (fill_buf net s)) _ w1
              (map_err-Holds TransferError.file (Took s (remaining w1)) (fill_buf net s) w1
                (Filled-Holds s (remaining w1) _ (fill_buf-Filled net file s w1)))
              (λ r w2 took. processed-Holds remote received c _ _ w2 h (
                Took-Ready send u r.0 r.1 w w2 intact (
                  subst (λ t. Took t (remaining w) r w2) e.0
                    (subst (λ rest. Took s rest r w2) e.1 took)))))

    -- So `Q` holds for the round.
    pub round-Through :
        (datagrams : ℕ) (remote : Metadata) (send : ℕ) (w : World)
        → Acknowledges Q u (ahead u w)
        → Intact send u
        → Holds {E = Error} Q (round net datagrams remote send u w)
    unfolding round
    round-Through datagrams remote send w h intact =
        bind-Holds (Still w) Q (lift (slice_to u.tx send)) _ w
          (slice_to-Holds Error (Still w) u.tx send w intact.2 refl)
          (λ d w1 s1.
            bind-Holds (Still w) Q (try TransferError.send (send_to d remote)) _ w1
              (try-Holds {E = Error} TransferError.send (Still w) (send_to d remote) w1
                (λ t. protocol.send_keeps d remote w1 ∙ s1))
              (λ t w2 s2.
                bind-Holds (Still w) Q
                  (receive net datagrams (λ sender. same_endpoint sender remote)) _ w2
                  (Holds-weaken {P = Still w2} {Q = Still w} _ (receive-Holds datagrams _ w2)
                    (λ r w3 e. e ∙ s2))
                  (λ r w3 s3. filled-Holds remote send r w w3 h intact s3)))
