-- ===== src/Tftp/Simulated/Uploading.antt =====
-- The protocol of an upload meets the contracts of src/tftp.rs.
use embassy_sandbox.Prelude.{
  ℕ, ◌≤◌, ◌≡◌, refl, sym, ap, arith, inl, inr, Bool-cases, Bool, List, [], ◌∷◌, ◌++◌, length,
}
use mathlib.Core.Path.{subst}
use embassy_sandbox.Tftp.Run.{Result, ok, err}
use embassy_sandbox.Tftp.Net.{AckReceived}
use embassy_sandbox.Tftp.Upload.Contract.{Protocol, Consumes, Log, Logs}
use embassy_sandbox.Tftp.Simulated.{lan, Blocks, none_sent, ack, lan_file, recv_leaves}

abbrev packet_length : Result Bool (Blocks × ℕ) → ℕ
packet_length (ok (s, n)) = n
packet_length (err e) = 0

pub first_length :
    (tx : List ℕ) (s : Blocks) (n : ℕ)
    → ◌≡◌ {A = Result Bool (Blocks × ℕ)} (ok (none_sent, 0)) (ok (s, n))
    → n ≤ length tx
first_length tx s n e = omega (arith, ap packet_length e)

-- A predicate on what is acknowledged.
abbrev Acknowledged : (AckReceived Blocks → Type 0) → Result Bool (AckReceived Blocks) → Type 0
Acknowledged P (ok a) = P a
Acknowledged P (err e) = Unit

pub ack-Consumes :
    (s : Blocks) (bytes : List ℕ) (a : AckReceived Blocks)
    → ◌≡◌ {A = Result Bool (AckReceived Blocks)} (ok (ack s bytes)) (ok a)
    → Consumes 4 bytes a
ack-Consumes s bytes a e =
    let here : Consumes 4 bytes (ack s bytes) = elim (Bool-cases s.last) [
      | inl over ↦ rw over tt
      | inr more ↦ rw more refl
    ] in
    subst (Acknowledged (Consumes 4 bytes)) e here

pub ack-Logs :
    (s : Blocks) (bytes : List ℕ) (a : AckReceived Blocks)
    → ◌≡◌ {A = Result Bool (AckReceived Blocks)} (ok (ack s bytes)) (ok a)
    → Logs (λ s. s.sent) (λ s. s.last) (λ s. s.block) 4 s bytes a
ack-Logs s bytes a e =
    let here : Logs (λ s. s.sent) (λ s. s.last) (λ s. s.block) 4 s bytes (ack s bytes) =
      elim (Bool-cases s.last) [
        | inl over ↦ rw over refl
        | inr more ↦ rw more (refl, refl, refl, refl)
      ] in
    subst (Acknowledged (Logs (λ s. s.sent) (λ s. s.last) (λ s. s.block) 4 s bytes)) e here

unfoldable pub lan_protocol : Protocol lan lan_file
unfolding lan_file
lan_protocol = record {
  send_keeps = λ d m w. refl;
  recv_keeps = recv_leaves;
  first_packet = λ tx name s n e. first_length tx s n e;
  length-tx = λ s received tx bytes. refl;
  answer_fits = λ s received tx bytes. omega arith;
  consumes = λ s received tx bytes a e. ack-Consumes s bytes a e;
}

abbrev started : Result Bool (Blocks × ℕ) → Blocks
started (ok (s, n)) = s
started (err e) = none_sent

abbrev pub lan_log : Log lan
lan_log = record {
  sent = λ s. s.sent;
  last = λ s. s.last;
  block = λ s. s.block;
  sent_first =
      λ tx name s n e. (ap (λ r. (started r).sent) (sym e), ap (λ r. (started r).last) (sym e));
  logs = λ s received tx bytes a e. ack-Logs s bytes a e;
}

-- The datagrams are those of the remote.
abbrev pub OfRemote : List (List ℕ × ℕ) → Type 0
OfRemote [] = Unit
OfRemote (d ∷ ds) = (d.1 ≡ 7) × OfRemote ds

pub append-OfRemote :
    (ds : List (List ℕ × ℕ)) (d : List ℕ) → OfRemote ds → OfRemote (ds ++ (d, 7) ∷ [])
append-OfRemote [] d o = (refl, tt)
append-OfRemote (e ∷ ds) d (o, os) = (o, append-OfRemote ds d os)
