-- ===== src/Tftp/Fill.antt =====
-- `fill_buf` of src/tftp.rs.
pub mod Laws
use embassy_sandbox.Prelude.{ℕ, zero, suc, ◌+◌, ◌-◌, List, [], ◌∷◌, ◌++◌, length, take, drop, ltb}
use embassy_sandbox.Prelude.{if◌then◌else◌, Outcome, done, starved}
use embassy_sandbox.Tftp.Run.{Run, Result, ok, err, pure}
use embassy_sandbox.Tftp.Net.{Net}

-- Bytes written into a buffer from a position on.
abbrev pub overwrite : ℕ → List ℕ → List ℕ → List ℕ
overwrite i bytes buf = take i buf ++ (bytes ++ drop (i + length bytes) buf)

module _ (net : Net) where
  open net use {World, FileError, read}

  -- What follows a read: the end of the file, more bytes, or an error.
  abbrev pub after_read :
      ℕ
      → List ℕ
      → (List ℕ → World → Outcome (Result FileError (ℕ × List ℕ) × World))
      → Result FileError (List ℕ) × World
      → Outcome (Result FileError (ℕ × List ℕ) × World)
  after_read written buf again (ok [], w) = done (ok (written, buf), w)
  after_read written buf again (ok (b ∷ bytes), w) = again (b ∷ bytes) w
  after_read written buf again (err e, w) = done (err e, w)

  -- The loop, with how many bytes were written and the rounds left.
  unfoldable pub fill : ℕ → ℕ → List ℕ → Run World FileError (ℕ × List ℕ)
  fill zero written buf w =
      if ltb written (length buf) then starved else done (ok (written, buf), w)
  fill (suc rounds) written buf w =
      if ltb written (length buf)
      then after_read written buf
          (λ bytes. fill rounds (written + length bytes) (overwrite written bytes buf))
          (read (length buf - written) w)
      else done (ok (written, buf), w)

  -- The buffer is returned as it is then.
  unfoldable pub fill_buf : List ℕ → Run World FileError (ℕ × List ℕ)
  fill_buf buf = fill (length buf) 0 buf
