-- ===== src/Tftp/Simulated/Repeating.antt =====
-- A network whose remote has already acknowledged before an upload of src/tftp.rs starts: the protocol
-- takes an acknowledgement that is not empty for a retransmission.
use embassy_sandbox.Prelude.{
  ℕ, ◌+◌, ◌<◌, ◌≡◌, refl, ◌∙◌, ap, arith, inl, inr, ◌==◌, Bool, Bool-cases, some, List, [], ◌∷◌,
  ◌++◌,
}
use mathlib.Core.Path.{subst}
use embassy_sandbox.Tftp.Run.{Result, ok, err}
use embassy_sandbox.Tftp.Net.{Net, AckReceived}
use embassy_sandbox.Tftp.Fill.Laws.{Reads}
use embassy_sandbox.Tftp.Upload.Contract.{Protocol, Consumes, Log, Logs, Prompt, Expects}
use embassy_sandbox.Tftp.Receive.Laws.{Arrives}
use embassy_sandbox.Tftp.Simulated.{Lan, lan, Blocks, ack, lan_file, recv_leaves}
use embassy_sandbox.Tftp.Simulated.Uploading.{
  first_length, ack-Consumes, ack-Logs, lan_log, OfRemote, append-OfRemote,
}

abbrev pub heard_ack : Blocks → List ℕ → List ℕ → AckReceived Blocks
heard_ack s [] bytes = ack s bytes
heard_ack s (b ∷ received) bytes = AckReceived.retransmission s

abbrev pub repeating : Net
repeating = record lan {
  send_to = λ d m w. (ok tt, record { rest = w.rest; inbox = w.inbox ++ ([], m) ∷ [] });
  process_ack = λ s received tx bytes. (ok (heard_ack s received bytes), some 0, tx);
}

unfoldable pub repeating_file : Reads repeating
unfolding lan_file
repeating_file = record { remaining = λ w. w.rest; read_lem = lan_file.read_lem }

-- A predicate on what is acknowledged.
abbrev Acknowledged : (AckReceived Blocks → Type 0) → Result Bool (AckReceived Blocks) → Type 0
Acknowledged P (ok a) = P a
Acknowledged P (err e) = Unit

pub heard_ack-Consumes :
    (s : Blocks) (received bytes : List ℕ) (a : AckReceived Blocks)
    → ◌≡◌ {A = Result Bool (AckReceived Blocks)} (ok (heard_ack s received bytes)) (ok a)
    → Consumes 4 bytes a
heard_ack-Consumes s [] bytes a e = ack-Consumes s bytes a e
heard_ack-Consumes s (b ∷ received) bytes a e = subst (Acknowledged (Consumes 4 bytes)) e tt

pub heard_ack-Logs :
    (s : Blocks) (received bytes : List ℕ) (a : AckReceived Blocks)
    → ◌≡◌ {A = Result Bool (AckReceived Blocks)} (ok (heard_ack s received bytes)) (ok a)
    → Logs (λ s. s.sent) (λ s. s.last) (λ s. s.block) 4 s bytes a
heard_ack-Logs s [] bytes a e = ack-Logs s bytes a e
heard_ack-Logs s (b ∷ received) bytes a e =
    subst (Acknowledged (Logs (λ s. s.sent) (λ s. s.last) (λ s. s.block) 4 s bytes)) e
      (refl, refl, refl)

pub repeating_protocol : Protocol repeating repeating_file
unfolding repeating_file
repeating_protocol = record {
  send_keeps = λ d m w. refl;
  recv_keeps = recv_leaves;
  first_packet = λ tx name s n e. first_length tx s n e;
  length-tx = λ s received tx bytes. refl;
  answer_fits = λ s received tx bytes. omega arith;
  consumes = λ s received tx bytes a e. heard_ack-Consumes s received bytes a e;
}

abbrev pub repeating_log : Log repeating
repeating_log = record {
  sent = λ s. s.sent;
  last = λ s. s.last;
  block = λ s. s.block;
  sent_first = lan_log.sent_first;
  logs = λ s received tx bytes a e. heard_ack-Logs s received bytes a e;
}

-- An acknowledgement that is not empty is a retransmission.
abbrev weight : List ℕ → ℕ
weight [] = 0
weight (b ∷ received) = 1

abbrev retransmissions : List (List ℕ × ℕ) → ℕ
retransmissions [] = 0
retransmissions (d ∷ ds) = weight d.0 + retransmissions ds

retransmissions-append :
    (ds : List (List ℕ × ℕ)) → retransmissions (ds ++ ([], 7) ∷ []) ≡ retransmissions ds
retransmissions-append [] = refl
retransmissions-append (d ∷ ds) = ap (λ n. weight d.0 + n) (retransmissions-append ds)

-- The datagrams are the remote's, and so many of them are retransmissions.
abbrev Awaits : ℕ → Blocks → Lan → Type 0
Awaits repeats s w = OfRemote w.inbox × (retransmissions w.inbox ≡ repeats)

abbrev Heard : ℕ → Blocks → List ℕ → Lan → Type 0
Heard repeats s received w =
    OfRemote w.inbox × (weight received + retransmissions w.inbox ≡ repeats)

abbrev Answers : ℕ → Blocks → Lan → Type 0
Answers repeats s w =
    (k : ℕ) × (received : List ℕ) × (w' : Lan) × Arrives repeating (λ sender. sender == 7) received
      w' k w
    × (k < 1)
    × Heard repeats s received w'

pub send_Answers :
    (repeats : ℕ) (s : Blocks) (ds : List (List ℕ × ℕ)) (rest : List ℕ)
    → OfRemote ds
    → retransmissions ds ≡ repeats
    → Answers repeats s (record { rest = rest; inbox = ds ++ ([], 7) ∷ [] })
send_Answers repeats s [] rest o e =
    (0, [], record { rest = rest; inbox = [] }, Arrives.now refl refl, omega arith, (tt, e))
send_Answers repeats s ((d, m) ∷ ds) rest (o, os) e = (
  0,
  d,
  record { rest = rest; inbox = ds ++ ([], 7) ∷ [] },
  Arrives.now refl (ground (arith, o)),
  omega arith,
  (append-OfRemote ds [] os, ap (λ n. weight d + n) (retransmissions-append ds) ∙ e),
)

pub heard_ack-Expects :
    (repeats : ℕ) (s : Blocks) (received bytes : List ℕ) (w : Lan)
    → Heard repeats s received w
    → Expects Awaits repeats
        (heard_ack s received bytes)
        (record { rest = w.rest; inbox = w.inbox ++ ([], 7) ∷ [] })
heard_ack-Expects repeats s [] bytes w (o, e) =
    let awaits : Awaits repeats s (record { rest = w.rest; inbox = w.inbox ++ ([], 7) ∷ [] }) =
      (append-OfRemote w.inbox [] o, omega (arith, retransmissions-append w.inbox, e)) in
    elim (Bool-cases s.last) [ inl over ↦ rw over tt | inr more ↦ rw more awaits ]
heard_ack-Expects repeats s (b ∷ received) bytes w (o, e) = (
  retransmissions w.inbox,
  omega (arith, e),
  (append-OfRemote w.inbox [] o, retransmissions-append w.inbox),
)

-- The remote 7 answers with the first datagram, if no other has sent one.
abbrev pub repeating_prompt : Prompt repeating 1 7
repeating_prompt = record {
  awaits = Awaits;
  heard = Heard;
  sends = λ d w. refl;
  answers = λ repeats s d w a. send_Answers repeats s w.inbox w.rest a.0 a.1;
  reads = λ repeats s received n w h. (_, _, refl, h);
  processes = λ repeats s received tx bytes w h.
      (heard_ack s received bytes, refl, heard_ack-Expects repeats s received bytes w h);
}
