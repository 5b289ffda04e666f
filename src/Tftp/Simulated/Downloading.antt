-- ===== src/Tftp/Simulated/Downloading.antt =====
-- The protocol and the file of a download meet the contract of src/tftp.rs.
use embassy_sandbox.Prelude.{
  ℕ, ◌≡◌, refl, sym, ap, arith, inl, inr, ltb, Bool-cases, Bool, List, [], length,
}
use mathlib.Core.Path.{subst}
use embassy_sandbox.Tftp.Run.{Result, ok, err}
use embassy_sandbox.Tftp.Net.{BlockReceived}
use embassy_sandbox.Tftp.Download.Stored.{Contract, Got}
use embassy_sandbox.Tftp.Simulated.{lan, block, recv_leaves}

abbrev packet_length : Result Bool (List ℕ × ℕ) → ℕ
packet_length (ok (s, n)) = n
packet_length (err e) = 0

abbrev started : Result Bool (List ℕ × ℕ) → List ℕ
started (ok (s, n)) = s
started (err e) = []

abbrev GotAll : List ℕ → Result Bool (BlockReceived (List ℕ)) → Type 0
GotAll s (ok b) = Got (λ s. s) s b
GotAll s (err e) = Unit

pub block-Got :
    (s received : List ℕ) (b : BlockReceived (List ℕ))
    → ◌≡◌ {A = Result Bool (BlockReceived (List ℕ))} (ok (block s received)) (ok b)
    → Got (λ s. s) s b
block-Got s received b e =
    let here : Got (λ s. s) s (block s received) = elim (Bool-cases (ltb (length received) 4)) [
      | inl short ↦ rw short tt
      | inr long ↦ rw long refl
    ] in
    subst (GotAll s) e here

abbrev pub lan_contract : Contract lan
lan_contract = record {
  written = λ w. w.rest;
  send_keeps = λ d m w. refl;
  recv_keeps = recv_leaves;
  writes = λ bytes w e. refl;
  got = λ s. s;
  got_first = λ tx name s n e. (sym (ap started e), omega (arith, ap packet_length e));
  gets = λ s received tx b e. block-Got s received b e;
  length-tx = λ s received tx. refl;
  answer_fits = λ s received tx. omega arith;
}
