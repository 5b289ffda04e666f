-- ===== src/Bitbang/Quad/Sessions.antt =====
-- The phases of a transfer of `QuadSpi` in src/bitbang.rs, as a device on the four lines sees them:
-- it counts clock cycles.
use embassy_sandbox.Prelude.{
  ℕ, zero, suc, ◌+◌, ◌*◌, ◌/◌, ◌%◌, ◌^◌, ◌≡◌, Bool, true, false, ◌==◌, List, [], ◌∷◌, ◌++◌, length,
  drop,
}
use embassy_sandbox.Prelude.{some, refl, ◌∙◌, ap, sym, map, arith, length-append, drop-append}
use embassy_sandbox.Bitbang.Wire.{Level, Event, History, emit, when}
use embassy_sandbox.Bitbang.Types.{Cpha, is_0}
use embassy_sandbox.Bitbang.Quad.Bytes.{Pin, QuadSpi}
use embassy_sandbox.Bitbang.Quad.Peer.{
  QuadPeer, peer_after, step, edge, wired, nibbles, tail_nibbles,
}
use embassy_sandbox.Bitbang.Quad.Clocks.{edges, opened, before_data, cycles_before_data, data-edges}
use embassy_sandbox.Bitbang.Quad.Bytes.{quad_read_mode, quad_write_mode}
use embassy_sandbox.Bitbang.Quad.Transfers.{Direction, framed, transfer_, data_phase, quad_transfer}
use embassy_sandbox.Bitbang.Config.{Mode, QuadTransfer}
use embassy_sandbox.Bitbang.Quad.Nibbles.{quad_read_-Gives, quad_write_-Took}

tail-drop : (n : ℕ) (ns : List ℕ) → tail_nibbles (drop n ns) ≡ drop (suc n) ns
tail-drop zero [] = refl
tail-drop zero (x ∷ ns) = refl
tail-drop (suc n) [] = refl
tail-drop (suc n) (x ∷ ns) = tail-drop n ns

-- How many nibbles a device has given out, and taken in, after that many edges.
abbrev given : Cpha → ℕ → ℕ
given Cpha._0 e = e / 2
given Cpha._1 e = suc e / 2

abbrev accepted : Cpha → ℕ → ℕ
accepted Cpha._0 e = suc e / 2
accepted Cpha._1 e = e / 2

module _ (cpha : Cpha) (p : QuadPeer) where
  abbrev Counts : ℕ → QuadPeer → Type 0
  Counts e q =
      (q.active ≡ (e % 2 == 1))
      × (q.queue ≡ drop (given cpha e) p.queue)
      × (length q.taken ≡ length p.taken + accepted cpha e)

given-even : (cpha : Cpha) (n : ℕ) → given cpha (n * 2) ≡ n
given-even Cpha._0 n = omega arith
given-even Cpha._1 n = omega arith

accepted-even : (cpha : Cpha) (n : ℕ) → accepted cpha (n * 2) ≡ n
accepted-even Cpha._0 n = omega arith
accepted-even Cpha._1 n = omega arith

-- A device gives the next nibble, or goes on with the one it has.
same_queue : {m n : ℕ} (ns : List ℕ) {q : List ℕ} → q ≡ drop m ns → m ≡ n → q ≡ drop n ns
same_queue ns e m = e ∙ ap (λ k. drop k ns) m

next_queue :
    {m n : ℕ} (ns : List ℕ) {q : List ℕ} → q ≡ drop m ns → suc m ≡ n → tail_nibbles q ≡ drop n ns
next_queue {m = m} ns e n = ap tail_nibbles e ∙ tail-drop m ns ∙ ap (λ k. drop k ns) n

edge-Counts :
    (cpha : Cpha) (p : QuadPeer) (e : ℕ) (b : Bool) (q : QuadPeer)
    → b ≡ (e % 2 == 1)
    → Counts cpha p e q
    → Counts cpha p (suc e) (edge cpha b q)
edge-Counts Cpha._0 p e false q b (a, g, t) =
    let even : e % 2 ≡ 0 = ground arith in
    (ground arith, same_queue p.queue g (omega arith), omega (arith, length-append q.taken))
edge-Counts Cpha._0 p e true q b (a, g, t) =
    let odd : e % 2 ≡ 1 = ground arith in
    (ground arith, next_queue p.queue g (omega arith), omega (arith, t))
edge-Counts Cpha._1 p e false q b (a, g, t) =
    let even : e % 2 ≡ 0 = ground arith in
    (ground arith, next_queue p.queue g (omega arith), omega (arith, t))
edge-Counts Cpha._1 p e true q b (a, g, t) =
    let odd : e % 2 ≡ 1 = ground arith in
    (ground arith, same_queue p.queue g (omega arith), omega (arith, length-append q.taken))

step-Counts :
    (cpha : Cpha) (p : QuadPeer) (e : Event Pin) (h : History Pin) (q : QuadPeer)
    → Counts cpha p (edges h) q
    → Counts cpha p (edges (e ∷ h)) (step cpha e q)
step-Counts cpha p e h q c = ground (arith, edge-Counts cpha p (edges h) q.active q c.0 c)

peer-Counts :
    (cpha : Cpha) (p : QuadPeer) (h : History Pin)
    → p.active ≡ false
    → Counts cpha p (edges h) (peer_after cpha p h)
peer-Counts cpha p [] a = ground arith
peer-Counts cpha p (e ∷ h) a = step-Counts cpha p e h _ (peer-Counts cpha p h a)

module _ (spi : QuadSpi) (p : QuadPeer) where
  open spi use {cpha}

  abbrev sense : Pin → History Pin → Level
  sense = wired cpha p

  -- The history when the data begin.
  abbrev started : QuadTransfer → History Pin → History Pin
  started t h = before_data sense spi t (opened sense spi h)

  started-Counts :
      (t : QuadTransfer) (k : ℕ) (h : History Pin)
      → p.active ≡ false
      → edges h ≡ 2 * k
      → let q = peer_after cpha p (started t h) in
        (q.active ≡ false)
        × (q.queue ≡ drop (k + cycles_before_data sense spi t) p.queue)
        × (length q.taken ≡ length p.taken + (k + cycles_before_data sense spi t))
  started-Counts t k h a e =
      let n = cycles_before_data sense spi t in
      let c = peer-Counts cpha p (started t h) a in
      let even : edges (started t h) ≡ (k + n) * 2 = omega (arith, data-edges sense spi t h) in
      let given_so_far = given-even cpha (k + n) in
      let accepted_so_far = accepted-even cpha (k + n) in
      (
        c.0 ∙ ground (arith, even),
        same_queue p.queue c.1 (ap (given cpha) even ∙ given_so_far),
        c.2 ∙ ap (λ m. length p.taken + m) (ap (accepted cpha) even ∙ accepted_so_far),
      )

  peer-when :
      (d : ℕ) (b : Bool) (h : History Pin)
      → peer_after cpha p (when b (emit (Event.block_for d)) h).1 ≡ peer_after cpha p h
  peer-when d true h = refl
  peer-when d false h = refl

  -- Wired to a device of the same clock phase whose clock was idle at the beginning, `k` clock
  -- cycles ago, a transfer with four data lines fills its buffer with the bytes whose nibbles the
  -- device gives out after the nibbles of those cycles and of the cycles that the instruction, the
  -- address and the dummy cycles take.
  pub quad_transfer-reads :
      (rx bs skipped rest : List ℕ) (t : QuadTransfer) (k : ℕ) (h : History Pin)
      → p.active ≡ false
      → edges h ≡ 2 * k
      → t.bytes ≡ some Mode.quad
      → p.queue ≡ skipped ++ (nibbles bs ++ rest)
      → length skipped ≡ k + cycles_before_data sense spi t
      → length rx ≡ length bs
      → (quad_transfer sense spi (Direction.read rx) t h).0 ≡ map (λ b. b % 2 ^ 8) bs
  unfolding quad_transfer framed data_phase transfer_ quad_read_mode
  quad_transfer-reads rx bs skipped rest t k h a e bytes queue skips long =
      let n = k + cycles_before_data sense spi t in
      let c = started-Counts t k h a e in
      let ready =
        same_queue p.queue c.1 (sym skips)
        ∙ ap (drop (length skipped)) queue
        ∙ drop-append skipped (nibbles bs ++ rest) in
      ap (λ m. (data_phase sense spi (Direction.read rx) m (started t h)).0) bytes
      ∙ (quad_read_-Gives spi p rx bs rest (quad_read_mode (started t h)).1 long (c.0, ready)).0

  -- Wired to a device of the same clock phase whose clock was idle at the beginning, `k` clock
  -- cycles ago, a transfer with four data lines makes the device take in, after a nibble for each of
  -- those cycles and of the cycles that the instruction, the address and the dummy cycles take, the
  -- nibbles of the bytes, the high one of each first, and no more.
  pub quad_transfer-writes :
      (tx : List ℕ) (t : QuadTransfer) (k : ℕ) (h : History Pin)
      → p.active ≡ false
      → edges h ≡ 2 * k
      → t.bytes ≡ some Mode.quad
      → let before = length p.taken + (k + cycles_before_data sense spi t) in
        drop before (peer_after cpha p (quad_transfer sense spi (Direction.write tx) t h).1).taken
        ≡ nibbles tx
  unfolding quad_transfer framed data_phase transfer_ quad_write_mode
  quad_transfer-writes tx t k h a e bytes =
      let n = length p.taken + (k + cycles_before_data sense spi t) in
      let c = started-Counts t k h a e in
      let earlier = (peer_after cpha p (started t h)).taken in
      let whole = (data_phase sense spi (Direction.write tx) t.bytes (started t h)).1 in
      let took = quad_write_-Took spi p tx _ (quad_write_mode (started t h)).1 (c.0, refl) in
      let end = peer-when spi.min_sck_half_cycle (is_0 cpha) whole in
      let same =
        ap
          (λ m.
            (peer_after cpha p (data_phase sense spi (Direction.write tx) m (started t h)).1).taken)
          bytes
        ∙ took.1 in
      ap (λ q. drop n q.taken) end
      ∙ ap (drop n) same
      ∙ ap (λ m. drop m (earlier ++ nibbles tx)) (sym c.2)
      ∙ drop-append earlier (nibbles tx)
