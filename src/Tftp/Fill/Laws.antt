-- ===== src/Tftp/Fill/Laws.antt =====
-- What `fill_buf` of src/tftp.rs makes of a file that is read in pieces of any length.
use Prim.Native.Nat.{min}
use embassy_sandbox.Prelude.{
  ℕ, zero, suc, ◌+◌, ◌-◌, ◌≤◌, ◌≡◌, ◌⊎◌, inl, inr, refl, sym, ◌∙◌, ap, arith,
}
use embassy_sandbox.Prelude.{
  List, [], ◌∷◌, ◌++◌, length, take, drop, ltb, false, Bool-cases, Outcome, done, panic, starved,
}
use embassy_sandbox.Prelude.{
  length-take, length-drop, length-append, take-append, drop-append_at, drop-drop,
}
use mathlib.Core.List.{append_assoc}
use embassy_sandbox.Tftp.Run.{Result, ok, err}
use embassy_sandbox.Tftp.Net.{Net}
use embassy_sandbox.Tftp.Fill.{overwrite, after_read, fill, fill_buf}

module _ (written : ℕ) (bytes buf : List ℕ) (fits : written + length bytes ≤ length buf) where
  abbrev upto : ℕ
  upto = written + length bytes

  start-length : upto ≡ length (take written buf ++ bytes)
  start-length = omega (arith, length-append (take written buf) bytes, length-take written buf)

  split_overwrite : overwrite written bytes buf ≡ (take written buf ++ bytes) ++ drop upto buf
  split_overwrite = sym (append_assoc (take written buf) bytes (drop upto buf))

  take-overwrite : take upto (overwrite written bytes buf) ≡ take written buf ++ bytes
  take-overwrite =
      ap (take upto) split_overwrite
      ∙ take-append upto (take written buf ++ bytes) (drop upto buf) start-length

  drop-overwrite : drop upto (overwrite written bytes buf) ≡ drop upto buf
  drop-overwrite =
      ap (drop upto) split_overwrite
      ∙ drop-append_at upto (take written buf ++ bytes) (drop upto buf) start-length

  length-overwrite : length (overwrite written bytes buf) ≡ length buf
  length-overwrite =
      ap length split_overwrite
      ∙ omega (
        arith,
        start-length,
        length-append (take written buf ++ bytes) (drop upto buf),
        length-drop upto buf,
      )

module _ (net : Net) where
  open net use {World, FileError, read}

  -- A read gives some of the bytes that remain, and none only at the end or for an empty buffer.
  abbrev Delivers : (World → List ℕ) → ℕ → List ℕ → Result FileError (List ℕ) × World → Type 0
  Delivers remaining n c (ok d, w) =
      (c ≡ d ++ remaining w) × (length d ≤ n) × ((n ≡ 0) ⊎ (c ≡ []) ⊎ (1 ≤ length d))
  Delivers remaining n c (err e, w) = Unit

  -- The contract of `embedded_io_async::Read`, for a file with these bytes to come.
  pub record Reads : Type 0 where
    pub remaining : World → List ℕ
    pub read_lem : (n : ℕ) (w : World) → Delivers remaining n (remaining w) (read n w)

  module _ (reads : Reads) where
    open reads use {remaining, read_lem}

    -- A result of `fill_buf`: an error of the file, or the buffer begins with as many bytes of the
    -- file as fit, and the others remain.
    abbrev pub Filled : List ℕ → List ℕ → Outcome (Result FileError (ℕ × List ℕ) × World) → Type 0
    Filled buf c (done (ok (n, buf'), w)) =
        (n ≡ min (length buf) (length c))
        × (take n buf' ++ remaining w ≡ c)
        × (drop n buf' ≡ drop n buf)
        × (length buf' ≡ length buf)
    Filled buf c (done (err e, w)) = Unit
    Filled buf c panic = ⊥
    Filled buf c starved = ⊥

    -- The variables of the loop, `buf` the buffer at first.
    Filling : List ℕ → List ℕ → ℕ → List ℕ → World → Type 0
    Filling buf c written buf' w =
        (written ≤ length buf)
        × (take written buf' ++ remaining w ≡ c)
        × (drop written buf' ≡ drop written buf)
        × (length buf' ≡ length buf)

    stop-Filled :
        (buf c : List ℕ) (written : ℕ) (buf' : List ℕ) (w : World)
        → Filling buf c written buf' w
        → (length buf ≤ written) ⊎ (remaining w ≡ [])
        → Filled buf c (done (ok (written, buf'), w))
    unfolding Filling
    stop-Filled buf c written buf' w (fits, all, kept, long) stop =
        let total : length c ≡ written + length (remaining w) =
          ap length (sym all)
          ∙ omega
              (arith, length-append (take written buf') (remaining w), length-take written buf') in
        (
          elim stop [ inl full ↦ omega arith | inr over ↦ omega (arith, ap length over) ],
          all,
          kept,
          long,
        )

    more :
        (buf c : List ℕ) (written : ℕ) (buf' : List ℕ) (w w' : World) (bytes : List ℕ)
        → Filling buf c written buf' w
        → remaining w ≡ bytes ++ remaining w'
        → written + length bytes ≤ length buf
        → Filling buf c (written + length bytes) (overwrite written bytes buf') w'
    unfolding Filling
    more buf c written buf' w w' bytes (fits, all, kept, long) got room = (
      room,
      ap (λ r. r ++ remaining w') (take-overwrite written bytes buf' (omega arith))
          ∙ append_assoc (take written buf') bytes (remaining w')
          ∙ ap (λ r. take written buf' ++ r) (sym got)
          ∙ all,
      drop-overwrite written bytes buf' (omega arith)
          ∙ sym (drop-drop written (length bytes) buf')
          ∙ ap (drop (length bytes)) kept
          ∙ drop-drop written (length bytes) buf,
      length-overwrite written bytes buf' (omega arith) ∙ long,
    )

    after_read-Filled :
        (buf c : List ℕ) (written : ℕ) (buf' : List ℕ) (w : World)
        (again : List ℕ → World → Outcome (Result FileError (ℕ × List ℕ) × World))
        (r : Result FileError (List ℕ) × World)
        → Filling buf c written buf' w
        → suc written ≤ length buf
        → Delivers remaining (length buf' - written) (remaining w) r
        → ((bytes : List ℕ) (w' : World)
            → 1 ≤ length bytes
            → Filling buf c (written + length bytes) (overwrite written bytes buf') w'
            → Filled buf c (again bytes w'))
        → Filled buf c (after_read net written buf' again r)
    unfolding Filling
    after_read-Filled buf c written buf' w again (ok [], w') i room (got, short, end) go =
        let over : remaining w ≡ [] = elim end [
          | inl none_left ↦ absurd (omega (arith, i.3))
          | inr (inl over) ↦ over
          | inr (inr some_left) ↦ absurd (omega arith)
        ] in
        let over' : remaining w' ≡ [] = sym got ∙ over in
        stop-Filled buf c written buf' w'
          (i.0, ap (λ r. take written buf' ++ r) (sym got) ∙ i.1, i.2, i.3) (inr over')
    after_read-Filled buf c written buf' w again (ok (b ∷ bytes), w') i room (got, short, end) go =
        go (b ∷ bytes) w' (omega arith)
          (more buf c written buf' w w' (b ∷ bytes) i got (omega (arith, i.3)))
    after_read-Filled buf c written buf' w again (err e, w') i room d go = tt

    fill-Filled :
        (rounds : ℕ) (buf c : List ℕ) (written : ℕ) (buf' : List ℕ) (w : World)
        → Filling buf c written buf' w
        → length buf ≤ rounds + written
        → Filled buf c (fill net rounds written buf' w)
    unfolding Filling fill
    fill-Filled zero buf c written buf' w i enough =
        let stop : ltb written (length buf') ≡ false = ground (arith, i.3) in
        rw stop (stop-Filled buf c written buf' w i (inl (omega arith)))
    fill-Filled (suc rounds) buf c written buf' w i enough =
        elim (Bool-cases (ltb written (length buf'))) [
          | inl room ↦ rw room (
              after_read-Filled buf c written buf' w _ _ i (ground (arith, i.3))
                (read_lem (length buf' - written) w)
                (λ bytes w' some i'.
                  fill-Filled rounds buf c (written + length bytes) (overwrite written bytes buf')
                    w' i' (omega (arith, some, enough))))
          | inr stop ↦ rw stop (stop-Filled buf c written buf' w i (inl (ground (arith, i.3))))
        ]

    -- For a file that obeys the contract of `Read`, `fill_buf` returns: either an error of the file,
    -- or the buffer begins with as many bytes of the file as fit, however short the reads are, and
    -- the rest of the buffer and the rest of the file are as before.
    pub fill_buf-Filled : (buf : List ℕ) (w : World) → Filled buf (remaining w) (fill_buf net buf w)
    unfolding fill_buf Filling
    fill_buf-Filled buf w =
        fill-Filled (length buf) buf (remaining w) 0 buf w (omega arith, refl, refl, refl)
          (omega arith)
