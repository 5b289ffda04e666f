-- ===== src/Tftp/Simulated.antt =====
-- A network, a file and a protocol that meet the contracts of src/tftp.rs: blocks of four bytes that
-- are acknowledged by one datagram for each that is sent, and a file that gives at most three bytes
-- at a time.
pub mod Uploading
pub mod Downloading
pub mod Serving
pub mod Repeating
use Prim.Native.Nat.{min}
use embassy_sandbox.Prelude.{
  ℕ, zero, suc, ◌≤◌, ◌<◌, ◌≡◌, ◌⊎◌, refl, sym, ap, arith, inl, inr, ltb, ◌==◌, Bool-cases,
  if◌then◌else◌, Bool, true, false, some, List, [], ◌∷◌, ◌++◌, length, take, drop, append-take-drop,
  length-take,
}
use mathlib.Core.Path.{subst}
use embassy_sandbox.Tftp.Run.{Result, ok, err}
use embassy_sandbox.Tftp.Net.{Net, AckReceived, BlockReceived}
use embassy_sandbox.Tftp.Fill.Laws.{Reads}
use embassy_sandbox.Tftp.Upload.Contract.{Protocol, Consumes, Log, Logs, Prompt}
use embassy_sandbox.Tftp.Receive.Laws.{Arrives}
use embassy_sandbox.Tftp.Download.Stored.{Contract, Got}

-- The bytes of the file to come, and the datagrams, each with its sender.
pub record Lan : Type 0 where
  pub rest : List ℕ
  pub inbox : List (List ℕ × ℕ)

abbrev recv : ℕ → Lan → Result Bool (List ℕ × ℕ) × Lan
recv n w = arriving w.inbox
  where
    arriving : List (List ℕ × ℕ) → Result Bool (List ℕ × ℕ) × Lan
    arriving [] = (err true, w)
    arriving (d ∷ ds) = (ok d, record { rest = w.rest; inbox = ds })

-- The bytes that were sent, whether the last block is among them, and the number of blocks.
pub record Blocks : Type 0 where
  pub sent : List ℕ
  pub last : Bool
  pub block : ℕ

abbrev pub ack : Blocks → List ℕ → AckReceived Blocks
ack s bytes =
    if s.last
    then AckReceived.transfer_complete
    else AckReceived.next_block
        (record {
          sent = s.sent ++ take (min 4 (length bytes)) bytes;
          last = ltb (min 4 (length bytes)) 4;
          block = suc s.block;
        })
        (min 4 (length bytes))

abbrev pub none_sent : Blocks
none_sent = record { sent = []; last = false; block = 0 }

abbrev pub block : List ℕ → List ℕ → BlockReceived (List ℕ)
block s received =
    if ltb (length received) 4
    then BlockReceived.final received
    else BlockReceived.intermediate (s ++ received) received

abbrev pub lan : Net
lan = record {
  World = Lan;
  SendError = Bool;
  RecvError = Bool;
  FileError = Bool;
  FilenameError = Bool;
  TftpError = Bool;
  strip = λ e. e;
  Filename = List ℕ;
  Mode = Bool;
  octect = true;
  block_size = 4;
  packet_size = 8;
  Metadata = ℕ;
  same_endpoint = λ m n. m == n;
  same_metadata = λ m n. m == n;
  payload_recv_capacity = λ w. 8;
  send_to = λ d m w. (ok tt, record { rest = w.rest; inbox = w.inbox ++ (d, m) ∷ [] });
  recv_from = recv;
  read =
      λ n w. (ok (take (min n 3) w.rest), record { rest = drop (min n 3) w.rest; inbox = w.inbox });
  write_all = λ bytes w. (ok tt, record { rest = w.rest ++ bytes; inbox = w.inbox });
  Uploading = Blocks;
  new_upload = λ tx name mode. (ok (none_sent, 0), tx);
  process_ack = λ s received tx bytes. (ok (ack s bytes), some 0, tx);
  Downloading = List ℕ;
  new_download = λ tx name mode. (ok ([], 0), tx);
  process_block = λ s received tx. (ok (block s received), some 0, tx);
}

pub some_or_none : (n : ℕ) (xs : List ℕ) → (n ≡ 0) ⊎ (xs ≡ []) ⊎ (1 ≤ length (take (min n 3) xs))
some_or_none zero xs = inl refl
some_or_none (suc n) [] = inr (inl refl)
some_or_none (suc n) (x ∷ xs) = inr (inr (omega (arith, length-take (min (suc n) 3) (x ∷ xs))))

unfoldable pub lan_file : Reads lan
lan_file = record {
  remaining = λ w. w.rest;
  read_lem = λ n w. (
    append-take-drop (min n 3) w.rest,
    omega (arith, length-take (min n 3) w.rest),
    some_or_none n w.rest,
  );
}

pub recv_leaves : (n : ℕ) (w : Lan) → (recv n w).1.rest ≡ w.rest
recv_leaves n w = leaves w.inbox w.rest
  where
    leaves :
        (inbox : List (List ℕ × ℕ)) (rest : List ℕ)
        → (recv n (record { rest = rest; inbox = inbox })).1.rest ≡ rest
    leaves [] rest = refl
    leaves (d ∷ ds) rest = refl
