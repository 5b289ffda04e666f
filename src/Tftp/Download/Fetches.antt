-- ===== src/Tftp/Download/Fetches.antt =====
-- `download` of src/tftp.rs writes the file that the remote has.
use embassy_sandbox.Prelude.{
  ℕ, suc, ◌≤◌, ◌<◌, ◌≡◌, refl, sym, ◌∙◌, ap, arith, Bool, Option, none, some,
}
use embassy_sandbox.Prelude.{List, ◌++◌, length, take, drop, done, panic}
use embassy_sandbox.Prelude.{append-take-drop, drop-append, length-take, take-eq_self}
use mathlib.Core.List.{append-nil, append_assoc}
use embassy_sandbox.Tftp.Run.{ok}
use embassy_sandbox.Tftp.Net.{Net, BlockReceived}
use embassy_sandbox.Tftp.Receive.Laws.{Arrives}
use embassy_sandbox.Tftp.Receive.Calls.{answered}
use embassy_sandbox.Tftp.Download.{Download, finished, round, download}
use embassy_sandbox.Tftp.Download.Stored.{Contract, Follows}
use embassy_sandbox.Tftp.Download.Prompt.{Prompt}
use embassy_sandbox.Tftp.Download.Reaches

-- A block is the next one of the file, and the final one is a short one.
abbrev pub Carries : {S : Type 0} → ℕ → List ℕ → ℕ → BlockReceived S → Type 0
Carries size file n (BlockReceived.intermediate s block) = block ≡ take size (drop n file)
Carries size file n (BlockReceived.final block) =
    (block ≡ take size (drop n file)) × (length block < size)
Carries size file n (BlockReceived.retransmission s) = Unit

module _ (net : Net) (contract : Contract net) (datagrams : ℕ) (remote : net.Metadata) where
  open net use {
    World, Metadata, Filename, Downloading, block_size, packet_size, octect, send_to, recv_from,
    write_all, payload_recv_capacity, same_metadata, new_download, process_block,
  }
  open contract use {written, got}

  -- What the remote sends of its file.
  abbrev pub Serves : Prompt net datagrams remote → List ℕ → Type 0
  Serves prompt file =
      (left : ℕ) (s : Downloading) (received tx : List ℕ) (w : World)
      → prompt.heard left s received w
      → (block : BlockReceived Downloading) → (process_block s received tx).0 ≡ ok block
      → Carries block_size file (length (got s)) block

  Arrives-written :
      (accepts : Metadata → Bool) {bytes : List ℕ} {w' : World} {k : ℕ} {w : World}
      → Arrives net accepts bytes w' k w
      → written w' ≡ written w
  Arrives-written accepts {w = w} (Arrives.now e a) =
      ap (λ r. written r.1) (sym e) ∙ contract.recv_keeps packet_size w
  Arrives-written accepts {w = w} (Arrives.later e a more) =
      Arrives-written accepts more
      ∙ ap (λ r. written r.1) (sym e)
      ∙ contract.recv_keeps packet_size w

  answered-written :
      (answer : Option ℕ) (tx : List ℕ) (w : World)
      → written (answered net remote answer tx w) ≡ written w
  answered-written none tx w = refl
  answered-written (some n) tx w = contract.send_keeps (take n tx) remote w

  module _ (prompt : Prompt net datagrams remote) (file : List ℕ) (serves : Serves prompt file)
      (whole : List ℕ) where
    -- The file so far, behind what was in it, and what is still to come of the remote's.
    abbrev Fetched : Downloading → World → Type 0
    Fetched s w = (ahead : List ℕ) × (got s ++ ahead ≡ file) × (written w ≡ whole ++ got s)

    wrote :
        (block : List ℕ) (answer : Option ℕ) (tx : List ℕ) (s : Downloading) (w : World)
        → written w ≡ whole ++ got s
        → written (write_all block (answered net remote answer tx w)).1 ≡ whole ++ (got s ++ block)
    wrote block answer tx s w held =
        let w' = answered net remote answer tx w in
        contract.writes block w' (prompt.writes block w')
        ∙ ap (λ xs. xs ++ block) (answered-written answer tx w ∙ held)
        ∙ append_assoc whole (got s) block

    next_piece :
        (n : ℕ) (before ahead : List ℕ)
        → before ++ ahead ≡ file
        → take n (drop (length before) file) ≡ take n ahead
    next_piece n before ahead e =
        ap (λ f. take n (drop (length before) f)) (sym e) ∙ ap (take n) (drop-append before ahead)

    -- A short piece is the last.
    last_piece :
        (before ahead block : List ℕ)
        → before ++ ahead ≡ file
        → block ≡ take block_size (drop (length before) file)
        → length block < block_size
        → before ++ block ≡ file
    last_piece before ahead block e piece short =
        let taken = piece ∙ next_piece block_size before ahead e in
        let few : length ahead ≤ block_size =
          omega (arith, short, ap length taken, length-take block_size ahead) in
        ap (λ xs. before ++ xs) (taken ∙ take-eq_self block_size ahead few) ∙ e

    ends_over :
        (s : Downloading) (received tx : List ℕ) (w : World)
        → prompt.heard 0 s received w
        → Fetched s w
        → (block : List ℕ) × ((process_block s received tx).0 ≡ ok (BlockReceived.final block))
          × (let p = process_block s received tx in
              written (write_all block (answered net remote p.1 p.2 w)).1 ≡ whole ++ file)
    ends_over s received tx w h (ahead, total, held) =
        let (block, e, o) = prompt.ends s received tx w h in
        let p = process_block s received tx in
        let (piece, short) = serves 0 s received tx w h (BlockReceived.final block) e in
        (
          block,
          e,
          wrote block p.1 p.2 s w held
              ∙ ap (λ xs. whole ++ xs) (last_piece (got s) ahead block total piece short),
        )

    goes_on_Fetched :
        (left : ℕ) (s : Downloading) (received tx : List ℕ) (w : World)
        → prompt.heard (suc left) s received w
        → Fetched s w
        → (s' : Downloading) × (block : List ℕ) × ((process_block s received tx).0
            ≡ ok (BlockReceived.intermediate s' block))
          × (let p = process_block s received tx in
              let w' = (write_all block (answered net remote p.1 p.2 w)).1 in
              prompt.awaits left s' w' × Fetched s' w')
    goes_on_Fetched left s received tx w h (ahead, total, held) =
        let (s', block, e, a) = prompt.goes_on left s received tx w h in
        let p = process_block s received tx in
        let next = BlockReceived.intermediate s' block in
        let more : got s' ≡ got s ++ block = contract.gets s received tx next e in
        let piece = serves (suc left) s received tx w h next e in
        let taken = piece ∙ next_piece block_size (got s) ahead total in
        (
          s',
          block,
          e,
          (
            a,
            (
              drop block_size ahead,
              ap (λ xs. xs ++ drop block_size ahead) (more ∙ ap (λ xs. got s ++ xs) taken)
                  ∙ append_assoc (got s) (take block_size ahead) (drop block_size ahead)
                  ∙ ap (λ xs. got s ++ xs) (sym (append-take-drop block_size ahead))
                  ∙ total,
              wrote block p.1 p.2 s w held ∙ ap (λ xs. whole ++ xs) (sym more),
            ),
          ),
        )

    -- The remote, followed with what it has sent of its file.
    unfoldable fetching : Prompt net datagrams remote
    fetching = record {
      awaits = λ left s w. prompt.awaits left s w × Fetched s w;
      heard = λ left s received w. prompt.heard left s received w × Fetched s w;
      over = λ w. written w ≡ whole ++ file;
      sends = prompt.sends;
      writes = prompt.writes;
      answers = λ left s d w (a, f).
          let (k, received, w', arrives, soon, h) = prompt.answers left s d w a in
          let same =
            Arrives-written (λ sender. same_metadata sender remote) arrives
            ∙ contract.send_keeps d remote w in
          (k, received, w', arrives, soon, (h, (f.0, f.1, same ∙ f.2)));
      ends = λ s received tx w (h, f). ends_over s received tx w h f;
      goes_on = λ left s received tx w (h, f). goes_on_Fetched left s received tx w h f;
    }

  -- With a file and a socket that give no error, a protocol that tells its blocks, and a remote that
  -- sends its file in blocks, `left` whole ones and a short one at the end: the rounds of `download`
  -- lead to one that ends its loop, and then the file holds what it held before and behind that the
  -- remote's file, each byte once and in order; and within `left + 1` rounds `download` comes to its
  -- `todo!()`, which panics, if the socket takes a whole packet.
  pub download-Fetches :
      (prompt : Prompt net datagrams remote) (file : List ℕ)
      → Serves prompt file
      → (left : ℕ) (name : Filename) (tx : List ℕ) (w0 : World) (s : Downloading) (send : ℕ)
      → packet_size ≤ payload_recv_capacity w0
      → (new_download tx name octect).0 ≡ ok (s, send)
      → prompt.awaits left s w0
      → (d : Download net) × (w : World) × (w' : World) × Follows net contract datagrams remote send
          ((record { state = s; tx = (new_download tx name octect).1 }), w0)
          d
          w
        × (round net datagrams remote send d w ≡ done (ok finished, w'))
        × (written w' ≡ written w0 ++ file)
        × (download net (suc left) datagrams name tx remote w0 ≡ panic)
  unfolding fetching
  download-Fetches prompt file serves left name tx w0 s send enough made a =
      let none_got = (contract.got_first tx name s send made).0 in
      let start = ap (λ g. g ++ file) none_got in
      let held = sym (append-nil (written w0)) ∙ ap (λ g. written w0 ++ g) (sym none_got) in
      let ((d, w, w', follows, e, after, fetched), panics) =
        Reaches.download-Ends net contract datagrams remote
          (fetching prompt file serves (written w0)) left name tx w0 s send enough made
          (a, (file, start, held)) in
      (d, w, w', follows, e, fetched, panics)
