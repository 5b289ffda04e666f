-- ===== src/Tests/Echo.antt =====
-- A run of the model of the echo server of src/main.rs, and its theorems at concrete inputs.
use embassy_sandbox.Prelude.{
  ℕ, zero, suc, ◌≤◌, ◌<◌, ◌≡◌, refl, sym, ◌∙◌, ap, arith, length, Bool, true, false, Option, none,
  some, List, [], ◌∷◌, ◌++◌, take, length-take, Outcome, done, panic,
}
use embassy_sandbox.Echo.{Socket, buf_length, format, session}
use embassy_sandbox.Echo.Answers.{Client, lines, session-Answers}
use embassy_sandbox.Firmware.{mac_addr}
use embassy_sandbox.Echo.Start.{Stack, echo}
use embassy_sandbox.Echo.Network.{Network, Status, on_ethernet, Documented, served, echo-served}
use embassy_sandbox.Echo.Server.{Listener, server, Endless}
use embassy_sandbox.Echo.Laws.{line, bytes_of, Short, format-round_trip}

-- The chunks to come, and the characters sent.
abbrev Peer : Type 0
Peer = List (List ℕ) × List ℕ

abbrev read : ℕ → Peer → Option (List ℕ) × Peer
read n ([], sent) = (none, ([], sent))
read n (chunk ∷ chunks, sent) = (some (take n chunk), (chunks, sent))

abbrev socket : Socket
socket = record { World = Peer; read = read; write_all = λ text w. (some tt, (w.0, w.1 ++ text)) }

abbrev start : Peer
start = ((0xC5 ∷ 0x07 ∷ []) ∷ (0xFF ∷ []) ∷ [], [])

-- c507 and ff, each with its end of the line.
session_run :
    session socket 3 start ≡ done ([], 99 ∷ 53 ∷ 48 ∷ 55 ∷ 13 ∷ 10 ∷ 102 ∷ 102 ∷ 13 ∷ 10 ∷ [])
unfolding session format
session_run = refl

format-round_trip_example :
    (format [] (0xC5 ∷ 0x07 ∷ []) ≡ done (line (0xC5 ∷ 0x07 ∷ [])))
    × (bytes_of (line (0xC5 ∷ 0x07 ∷ [])) ≡ 0xC5 ∷ 0x07 ∷ [])
format-round_trip_example =
    format-round_trip (0xC5 ∷ 0x07 ∷ []) (omega arith) (omega arith, (omega arith, tt))

-- A client whose chunks are cut to the buffer's length, and end at an empty one.
abbrev cut : List (List ℕ) → List (List ℕ)
cut [] = []
cut ([] ∷ chunks) = []
cut ((b ∷ buf) ∷ chunks) = take buf_length (b ∷ buf) ∷ cut chunks

abbrev read_cut : ℕ → Peer → Option (List ℕ) × Peer
read_cut n ([], sent) = (some [], ([], sent))
read_cut n ([] ∷ chunks, sent) = (some [], ([], sent))
read_cut n ((b ∷ buf) ∷ chunks, sent) = (some (take n (b ∷ buf)), (chunks, sent))

abbrev cutting : Socket
cutting = record {
  World = Peer;
  read = read_cut;
  write_all = λ text w. (some tt, (w.0, w.1 ++ text));
}

cut_ends :
    (chunks : List (List ℕ)) (sent : List ℕ)
    → cut chunks ≡ []
    → (w' : Peer) × (read_cut buf_length (chunks, sent) ≡ (some [], w')) × (w'.1 ≡ sent)
cut_ends [] sent e = (([], sent), refl, refl)
cut_ends ([] ∷ chunks) sent e = (([], sent), refl, refl)
cut_ends ((b ∷ buf) ∷ chunks) sent e = absurd (omega (arith, ap length e))

cut_reads :
    (all : List (List ℕ)) (sent : List ℕ) (b : ℕ) (buf : List ℕ) (chunks : List (List ℕ))
    → cut all ≡ (b ∷ buf) ∷ chunks
    → (length (b ∷ buf) ≤ buf_length)
      × (w' : Peer) × (read_cut buf_length (all, sent) ≡ (some (b ∷ buf), w'))
      × (cut w'.0 ≡ chunks)
      × (w'.1 ≡ sent)
cut_reads [] sent b buf chunks e = absurd (omega (arith, ap length e))
cut_reads ([] ∷ all) sent b buf chunks e = absurd (omega (arith, ap length e))
cut_reads ((c ∷ bytes) ∷ all) sent b buf chunks e =
    let first : take buf_length (c ∷ bytes) ≡ b ∷ buf = ap head e in
    (
      omega (arith, ap length first, length-take buf_length (c ∷ bytes)),
      (all, sent),
      ap (λ xs. (some xs, (all, sent))) first,
      ap others e,
      refl,
    )
  where
    head : List (List ℕ) → List ℕ
    head [] = []
    head (x ∷ xs) = x

    others : List (List ℕ) → List (List ℕ)
    others [] = []
    others (x ∷ xs) = xs

client : Client cutting
client = record {
  incoming = λ w. cut w.0;
  outgoing = λ w. w.1;
  reads = λ w b buf chunks e. cut_reads w.0 w.1 b buf chunks e;
  ends = λ w e. cut_ends w.0 w.1 e;
  writes = λ w text. ((w.0, w.1 ++ text), refl, refl, refl);
}

session-Answers_example :
    (w' : Peer) × (session cutting 3 start ≡ done w')
    × (w'.1 ≡ [] ++ lines ((0xC5 ∷ 0x07 ∷ []) ∷ (0xFF ∷ []) ∷ []))
unfolding client
session-Answers_example =
    session-Answers cutting client ((0xC5 ∷ 0x07 ∷ []) ∷ (0xFF ∷ []) ∷ []) start tt refl

-- The board: its client, its status and how many yields are left until there is a configuration.
record Board : Type 0 where
  peer : Peer
  status : Status
  left : ℕ

abbrev at_reset : Board
at_reset = record {
  peer = start;
  status = record {
    queue_taken = false;
    resources_taken = false;
    ethernet = none;
    network = none;
    running = none;
    dhcp_up = false;
    socket_timeout = none;
  };
  left = 9;
}

abbrev put : Board → Option (List ℕ) × Peer → Option (List ℕ) × Board
put b (bytes, peer) = (bytes, record b { peer = peer })

abbrev read_board : ℕ → Board → Option (List ℕ) × Board
read_board n b = put b (read n b.peer)

abbrev listener : Listener
listener = record {
  socket = record {
    World = Board;
    read = read_board;
    write_all = λ text b. (some tt, record b { peer = (b.peer.0, b.peer.1 ++ text) });
  };
  accept = λ port b. (some tt, b);
  close = λ b. b;
  flush = λ b. (some tt, b);
  after_secs = λ n b. b;
}

abbrev up_at : Option Network → ℕ → Option ℕ
up_at (some network) zero = some 43
up_at _ _ = none

abbrev less : ℕ → ℕ
less zero = 0
less (suc n) = n

abbrev take_queue : Bool → Board → Outcome Board
take_queue true b = panic
take_queue false b = done (record b { status = record (b.status) { queue_taken = true } })

abbrev take_resources : Bool → Board → Outcome Board
take_resources true b = panic
take_resources false b = done (record b { status = record (b.status) { resources_taken = true } })

abbrev spawn : Option Network → Board → Outcome Board
spawn (some network) b = panic
spawn none b = done (record b { status = record (b.status) { running = b.status.network } })

-- There is a configuration after two yields.
abbrev stack : Stack Board
stack = record {
  Config = ℕ;
  take_packet_queue = λ b. take_queue b.status.queue_taken b;
  take_resources = λ b. take_resources b.status.resources_taken b;
  new_ethernet = λ mac_addr b. record b { status = record (b.status) { ethernet = some mac_addr } };
  new = λ config seed b. record b {
    status = record (b.status) { network = on_ethernet config seed b.status.ethernet };
  };
  must_spawn_net_task = λ b. spawn b.status.running b;
  wait_config_up = λ b. record b { left = 2 };
  config_v4 = λ b. up_at b.status.running b.left;
  yield_now = λ b. record b { left = less b.left };
  signal_dhcp_up = λ b. record b { status = record (b.status) { dhcp_up = true } };
  new_socket = λ b. record b { status = record (b.status) { socket_timeout = none } };
  set_timeout = λ n b. record b { status = record (b.status) { socket_timeout = some n } };
}

less-le : (network : Network) (n : ℕ) → up_at (some network) n ≡ none → less n < n
less-le network zero e = absurd (ground arith)
less-le network (suc n) e = omega arith

documented : Documented listener stack 3
documented = record {
  seen = λ b. b.status;
  away = λ b. b.left;
  takes_queue = λ b free. (_, ap (λ t. take_queue t b) free, refl);
  takes_resources = λ b free. (_, ap (λ t. take_resources t b) free, refl);
  makes_ethernet = λ mac_addr b. refl;
  makes_network = λ config seed b. refl;
  spawns = λ b idle. (_, ap (λ r. spawn r b) idle, refl);
  waits = λ b. refl;
  soon = λ b network runs. omega arith;
  yields = λ b. refl;
  nearer = λ b network runs e. less-le network b.left (sym (ap (λ r. up_at r b.left) runs) ∙ e);
  signals = λ b. (refl, refl);
  makes_socket = λ b. (refl, refl);
  sets_timeout = λ n b. (refl, refl);
}

put-Short : (b : Board) (p : Peer) → Short listener.socket (put b (read buf_length p))
put-Short b ([], sent) = tt
put-Short b (chunk ∷ chunks, sent) = omega (arith, length-take buf_length chunk)

echo-served_example :
    (w' : Board) × (config : ℕ) × (echo listener stack mac_addr (7, 11) 3 2 3 at_reset
      ≡ server listener 2 3 w')
    × (w'.status ≡ served mac_addr 7)
    × (up_at w'.status.running w'.left ≡ some config)
    × Endless listener (echo listener stack mac_addr (7, 11) 3 2 3 at_reset)
unfolding documented
echo-served_example =
    echo-served listener stack 3 documented mac_addr (7, 11) 2 3 at_reset refl refl refl
      (λ b. put-Short b b.peer)
