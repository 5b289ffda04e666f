-- ===== src/Tftp/Download/End.antt =====
-- How `download` of src/tftp.rs ends.
use embassy_sandbox.Prelude.{ℕ, zero, suc, leb, assert, List, Outcome, done, panic, starved}
use embassy_sandbox.Prelude
use embassy_sandbox.Tftp.Run.{Run, Result, ok, err, pure, next, reads, lift, returned, ◌>>=◌}
use embassy_sandbox.Tftp.Net.{Net, TransferError}
use embassy_sandbox.Tftp.Download.{
  Download, Step, finished, again, round, after_round, rounds, download,
}

module _ {E A W : Type 0} where
  -- The run does not return `Ok`: it returns an error, panics or goes on.
  abbrev pub Fails : Outcome (Result E A × W) → Type 0
  Fails (done (ok a, w)) = ⊥
  Fails (done (err e, w)) = Unit
  Fails panic = Unit
  Fails starved = Unit

module _ {E A B W : Type 0} where
  -- What comes after a step that does not return `Ok` decides.
  Fails-bind :
      (m : Run W E A) (f : A → Run W E B)
      → ((a : A) (w : W) → Fails (f a w))
      → (w : W) → Fails ((m >>= f) w)
  Fails-bind m f h w = ends (m w)
    where
      ends : (o : Outcome (Result E A × W)) → Fails (Prelude.◌>>=◌ o (next f))
      ends (done (ok a, w')) = h a w'
      ends (done (err e, w')) = tt
      ends panic = tt
      ends starved = tt

module _ (net : Net) where
  open net use {World, Metadata, Filename, octect, packet_size, payload_recv_capacity, new_download}

  after_round-Fails :
      (go : Download net → Run World (TransferError net) (Unit {0}))
      → ((d : Download net) (w : World) → Fails (go d w))
      → (step : Step net) (w : World) → Fails (after_round net go step w)
  after_round-Fails go h finished w = tt
  after_round-Fails go h (again d) w = h d w

  rounds-Fails :
      (n datagrams : ℕ) (remote : Metadata) (send : ℕ) (d : Download net) (w : World)
      → Fails (rounds net n datagrams remote send d w)
  unfolding rounds
  rounds-Fails zero datagrams remote send d w = tt
  rounds-Fails (suc n) datagrams remote send d w =
      Fails-bind (round net datagrams remote send d) _
        (after_round-Fails _ (λ d' w'. rounds-Fails n datagrams remote send d' w')) w

  -- Whatever the network, the file and the protocol crate do, `download` does not return `Ok`.
  pub download-Fails :
      (n datagrams : ℕ) (filename : Filename) (tx : List ℕ) (remote : Metadata) (w : World)
      → Fails (download net n datagrams filename tx remote w)
  unfolding download
  download-Fails n datagrams filename tx remote w =
      Fails-bind (reads payload_recv_capacity) _
        (λ capacity. Fails-bind (lift (assert (leb packet_size capacity))) _ (λ _.
          Fails-bind (pure (new_download tx filename octect)) _ (λ made.
            Fails-bind (returned TransferError.filename made.0) _ (λ started.
              rounds-Fails n datagrams remote started.1
                (record { state = started.0; tx = made.1 })))))
        w
