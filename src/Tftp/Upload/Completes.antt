-- ===== src/Tftp/Upload/Completes.antt =====
-- `upload` of src/tftp.rs ends: the rounds that it takes.
use embassy_sandbox.Prelude.{
  ℕ, zero, suc, ◌+◌, ◌*◌, ◌<◌, ◌≤◌, ◌≡◌, ◌⊎◌, inl, inr, refl, ◌∙◌, ap, arith, leb, true, false,
}
use embassy_sandbox.Prelude.{
  List, length, take, length-take, length-append, le_or_lt, Outcome, done, checked_sub,
}
use embassy_sandbox.Tftp.Run.{Result, ok}
use embassy_sandbox.Tftp.Run.Holds.{Holds}
use embassy_sandbox.Tftp.Run.Smooth.{Smooth-returns}
use embassy_sandbox.Tftp.Net.{Net, TransferError, AckReceived}
use embassy_sandbox.Tftp.Fill.Laws.{Reads}
use embassy_sandbox.Tftp.Upload.{
  Upload, Step, finished, again, acknowledged, round, after_round, rounds, upload,
}
use embassy_sandbox.Tftp.Upload.Contract.{Protocol, Log, Logs, Prompt}
use embassy_sandbox.Tftp.Upload.Contract
use embassy_sandbox.Tftp.Upload.Prompt
use embassy_sandbox.Tftp.Upload.Rounds

module _ (net : Net) (file : Reads net) (protocol : Protocol net file) (log : Log net) where
  open net use {
    World, Metadata, Filename, Uploading, block_size, packet_size, payload_recv_capacity, octect,
    new_upload, process_ack,
  }
  open log use {sent, last, block}

  abbrev Error : Type 0
  Error = TransferError net

  abbrev ahead : Upload net → World → List ℕ
  ahead = Rounds.ahead net file protocol

  abbrev Intact : ℕ → Upload net → Type 0
  Intact = Rounds.Intact net file protocol

  -- Unless a round ends the loop, either the block is the same and as much is ahead, or it is another
  -- one, and the last block is sent or there is one block less ahead.
  abbrev Shrinks : ℕ → Uploading → List ℕ → Step net → World → Type 0
  Shrinks send s c finished w = Unit
  Shrinks send s c (again u) w =
      Intact send u
      × ((block u.state ≡ block s) × (last u.state ≡ last s) × (length (ahead u w) ≡ length c)
          ⊎ (block u.state ≡ suc (block s))
            × (last s ≡ false)
            × ((last u.state ≡ true) ⊎ (block_size + length (ahead u w) ≡ length c)))

  acknowledged-Shrinks :
      (send : ℕ) (s : Uploading) (c buf : List ℕ) (n : ℕ) (tx : List ℕ)
      (ack : AckReceived Uploading) (w : World)
      → Rounds.Ready net file protocol c buf n w
      → send ≤ length tx
      → Contract.Consumes block_size (take n buf) ack
      → Logs sent last block block_size s (take n buf) ack
      → Holds {E = Error} (Shrinks send s c) (acknowledged net ack buf n tx w)
  unfolding Holds
  acknowledged-Shrinks send s c buf n tx (AckReceived.next_block s' k) w ready fits all logs =
      let handed = length-take n buf in
      let exact : k ≡ n = omega (arith, all, ready.0, ready.1, handed) in
      let none_left : checked_sub n k ≡ done 0 = ground (arith, exact) in
      rw none_left (
        (ready.0, omega arith, fits),
        inr (
          logs.3,
          logs.2,
          elim (le_or_lt block_size n) [
            | inl full ↦ inr (
                omega (
                  arith,
                  ap length ready.2,
                  length-append (take n buf) (file.remaining w),
                  handed,
                  full,
                  ready.0,
                  ready.1,
                ))
            | inr short ↦ inl (logs.1 ∙ ground (arith, exact, short))
          ],
        ),
      )
  acknowledged-Shrinks send s c buf n tx AckReceived.transfer_complete w ready fits all logs = tt
  acknowledged-Shrinks send s c buf n tx (AckReceived.retransmission s') w ready fits all logs =
      ((ready.0, ready.1, fits), inl (logs.2, logs.1, ap length ready.2))

  -- The call returns `Ok`.
  abbrev pub Succeeds : Outcome (Result Error (Unit {0}) × World) → Type 0
  Succeeds o = (w : World) × (o ≡ done (ok tt, w))

  -- The blocks that are still to be sent are fewer than that.
  abbrev Left : ℕ → Upload net → World → Type 0
  Left k u w = (last u.state ≡ true) ⊎ (length (ahead u w) < k * block_size)

  fewer :
      (k : ℕ) (u u' : Upload net) (w w' : World)
      → Left k u w
      → last u.state ≡ false
      → (last u'.state ≡ true) ⊎ (block_size + length (ahead u' w') ≡ length (ahead u w))
      → (less : ℕ) × (k ≡ suc less) × Left less u' w'
  fewer k u u' w w' (inl end) more less = absurd (cc (end, more))
  fewer zero u u' w w' (inr left) more less = absurd (omega (arith, left))
  fewer (suc k) u u' w w' (inr left) more (inl end) = (k, refl, inl end)
  fewer (suc k) u u' w w' (inr left) more (inr less) = (k, refl, inr (omega (arith, left, less)))

  module _ (datagrams : ℕ) (remote : Metadata) (prompt : Prompt net datagrams remote) where
    -- With one round less for that, the rest of the loop returns `Ok`.
    abbrev GoesOn :
        ℕ → ℕ → (Upload net → World → Outcome (Result Error (Unit {0}) × World)) → Type 0
    GoesOn send n go =
        (u : Upload net) (w : World) (k repeats : ℕ)
        → Intact send u
        → prompt.awaits repeats u.state w
        → Left k u w
        → suc (k + repeats) ≡ n
        → Succeeds (go u w)

    after_round-Succeeds :
        (send k repeats : ℕ) (u : Upload net) (w : World)
        (go : Upload net → World → Outcome (Result Error (Unit {0}) × World))
        → Left k u w
        → GoesOn send (k + repeats) go
        → (step : Step net) (w' : World) → Shrinks send u.state (ahead u w) step w'
        → Prompt.Goes net file log datagrams remote prompt repeats u.state step w'
        → Succeeds (after_round net go step w')
    after_round-Succeeds send k repeats u w go left h finished w' shrinks goes = (w', refl)
    after_round-Succeeds send k repeats u w go left h (again u') w' (intact, inl (same, over, kept))
          (less, awaits, inl (next, e)) =
        absurd (omega (arith, same, next))
    after_round-Succeeds send k repeats u w go left h (again u') w' (intact, inl (same, over, kept))
          (less, awaits, inr (again_same, e)) =
        h u' w' k less intact awaits
          (elim left [ inl end ↦ inl (over ∙ end) | inr short ↦ inr (omega (arith, kept, short)) ])
          (omega (arith, e))
    after_round-Succeeds send k repeats u w go left h (again u') w'
          (intact, inr (next, more, sends)) (less, awaits, inl (also_next, e)) =
        let (k', fits, left') = fewer k u u' w w' left more sends in
        h u' w' k' less intact awaits left' (omega (arith, fits, e))
    after_round-Succeeds send k repeats u w go left h (again u') w'
          (intact, inr (next, more, sends)) (less, awaits, inr (same, e)) =
        absurd (omega (arith, same, next))

    round-Returns :
        (send repeats : ℕ) (u : Upload net) (w : World)
        → Intact send u
        → prompt.awaits repeats u.state w
        → (step : Step net) × (w' : World) × (round net datagrams remote send u w
            ≡ done (ok step, w'))
          × Shrinks send u.state (ahead u w) step w'
          × Prompt.Goes net file log datagrams remote prompt repeats u.state step w'
    round-Returns send repeats u w intact awaits =
        Smooth-returns (Shrinks send u.state (ahead u w))
          (Prompt.Goes net file log datagrams remote prompt repeats u.state)
          (round net datagrams remote send u w)
          (Rounds.round-Through net file protocol (Shrinks send u.state (ahead u w)) u datagrams
            remote send w
            (λ received buf n ack w' ready e.
              acknowledged-Shrinks send u.state (ahead u w) buf n _ ack w' ready
                (omega (arith, intact.2, protocol.length-tx u.state received u.tx (take n buf)))
                (protocol.consumes u.state received u.tx (take n buf) ack e)
                (log.logs u.state received u.tx (take n buf) ack e))
            intact)
          (Prompt.round-Smooth net file log datagrams remote prompt repeats send u w awaits)

    rounds-Succeeds :
        (n send k repeats : ℕ) (u : Upload net) (w : World)
        → k + repeats ≡ n
        → Intact send u
        → prompt.awaits repeats u.state w
        → Left k u w
        → Succeeds (rounds net (suc n) datagrams remote send u w)
    unfolding rounds
    rounds-Succeeds zero send k repeats u w few intact awaits left =
        let (step, w', e, shrinks, goes) = round-Returns send repeats u w intact awaits in
        rw e (
          after_round-Succeeds send k repeats u w (rounds net zero datagrams remote send) left
            (λ u' w'' k' repeats' intact' awaits' left' fewer. absurd (omega (arith, few, fewer)))
            step w' shrinks goes)
    rounds-Succeeds (suc n) send k repeats u w few intact awaits left =
        let (step, w', e, shrinks, goes) = round-Returns send repeats u w intact awaits in
        rw e (
          after_round-Succeeds send k repeats u w (rounds net (suc n) datagrams remote send) left
            (λ u' w'' k' repeats' intact' awaits' left' fewer.
              rounds-Succeeds n send k' repeats' u' w'' (omega (arith, few, fewer)) intact' awaits'
                left')
            step w' shrinks goes)

    -- With a file and a socket that give no error, a protocol that takes whole blocks in order, and
    -- a remote that awaits the first packet, as `Prompt` says: `upload` returns `Ok` after at most
    -- a round for each block of the file, the last of which is a short one, a round for each
    -- retransmission, and one more, if the file buffer has the length of a block, the socket takes
    -- a whole packet and the protocol makes the first packet.
    pub upload-Succeeds :
        (k repeats : ℕ) (name : Filename) (file_buf tx : List ℕ) (w : World) (s : Uploading)
        (send : ℕ)
        → length file_buf ≡ block_size
        → packet_size ≤ payload_recv_capacity w
        → (new_upload tx name octect).0 ≡ ok (s, send)
        → prompt.awaits repeats s w
        → length (file.remaining w) < k * block_size
        → Succeeds (upload net (suc (k + repeats)) datagrams name file_buf tx remote w)
    unfolding upload
    upload-Succeeds k repeats name file_buf tx w s send long enough made awaits short =
        let fits : leb packet_size (payload_recv_capacity w) ≡ true = ground arith in
        rw (fits, made)
          (rounds-Succeeds (k + repeats) send k repeats _ w refl
            (long, omega arith, protocol.first_packet tx name s send made) awaits (inr short))
