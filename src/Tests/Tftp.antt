-- ===== src/Tests/Tftp.antt =====
-- Runs of the model of src/tftp.rs, and its theorems at concrete inputs.
use embassy_sandbox.Prelude.{ℕ, ◌≡◌, inl, refl, arith, true, false, ◌==◌, List, [], ◌∷◌, done}
use embassy_sandbox.Tftp.Run.{ok}
use embassy_sandbox.Tftp.Run.Holds.{Holds}
use embassy_sandbox.Tftp.Fill.{fill, fill_buf}
use embassy_sandbox.Tftp.Fill.Laws.{Filled, fill_buf-Filled}
use embassy_sandbox.Tftp.Receive.{receive, reply}
use embassy_sandbox.Tftp.Receive.Laws.{Arrives, receive-Arrives}
use embassy_sandbox.Tftp.Upload.{Upload, finished, again, round, rounds, processed, upload}
use embassy_sandbox.Tftp.Upload.Rounds.{ahead}
use embassy_sandbox.Tftp.Upload.Stream.{Advances, round-Holds}
use embassy_sandbox.Tftp.Upload.Sent.{Follows, Conserves, Follows-Conserves, upload-Sent}
use embassy_sandbox.Tftp.Upload.Delivers.{upload-Delivers}
use embassy_sandbox.Tftp.Upload.Ends.{Anything, upload-Holds}
use embassy_sandbox.Tftp.Simulated.{Lan, lan, none_sent, lan_file}
use embassy_sandbox.Tftp.Simulated.Uploading.{lan_protocol, lan_log}
use embassy_sandbox.Tftp.Simulated.Repeating.{
  repeating, repeating_file, repeating_protocol, repeating_log, repeating_prompt,
}

-- Six bytes in the file; the remote is 7, and a datagram of another comes first.
abbrev start : Lan
start = record {
  rest = 10 ∷ 11 ∷ 12 ∷ 13 ∷ 14 ∷ 15 ∷ [];
  inbox = (1 ∷ [], 9) ∷ (2 ∷ [], 7) ∷ (3 ∷ [], 7) ∷ (4 ∷ [], 7) ∷ [];
}

abbrev received : Lan
received = record { rest = start.rest; inbox = (3 ∷ [], 7) ∷ (4 ∷ [], 7) ∷ [] }

abbrev buffer : List ℕ
buffer = 0 ∷ 0 ∷ 0 ∷ 0 ∷ []

abbrev first_round : Upload lan
first_round = record { state = none_sent; file_buf = buffer; buf_offset = 0; tx = [] }

-- The whole file is taken in three rounds, each of which sends two datagrams.
upload_run :
    upload lan 3 2 [] buffer [] 7 start
    ≡ done (
      ok tt,
      record { rest = []; inbox = ([], 7) ∷ ([], 7) ∷ ([], 7) ∷ ([], 7) ∷ ([], 7) ∷ ([], 7) ∷ [] },
    )
unfolding upload rounds round receive reply fill_buf fill processed
upload_run = refl

-- The reads of at most three bytes fill the buffer.
fill_buf_run :
    fill_buf lan buffer start
    ≡ done (ok (4, 10 ∷ 11 ∷ 12 ∷ 13 ∷ []), record { rest = 14 ∷ 15 ∷ []; inbox = start.inbox })
unfolding fill_buf fill
fill_buf_run = refl

fill_buf-Filled_example :
    Filled lan lan_file buffer (lan_file.remaining start) (fill_buf lan buffer start)
fill_buf-Filled_example = fill_buf-Filled lan lan_file buffer start

receive-Arrives_example : receive lan 2 (λ sender. sender == 7) start ≡ done (ok (2 ∷ []), received)
receive-Arrives_example =
    receive-Arrives lan (λ sender. sender == 7) 2 1 (2 ∷ []) start received
      (Arrives.later refl refl (Arrives.now refl refl)) (omega arith)

round-Holds_example :
    Holds
      (Advances lan lan_file lan_protocol 0 (ahead lan lan_file lan_protocol first_round start))
      (round lan 2 7 0 first_round start)
round-Holds_example =
    round-Holds lan lan_file lan_protocol 2 7 0 first_round start (refl, omega arith, omega arith)

upload-Holds_example :
    Holds (Anything lan lan_file lan_protocol) (upload lan 3 2 [] buffer [] 7 start)
upload-Holds_example =
    upload-Holds lan lan_file lan_protocol 3 2 [] buffer [] 7 start refl (omega arith)

-- A round sends four bytes, the next one two, and the third ends the loop.
abbrev second_round : Upload lan
second_round = record {
  state = record { sent = 10 ∷ 11 ∷ 12 ∷ 13 ∷ []; last = false; block = 1 };
  file_buf = 10 ∷ 11 ∷ 12 ∷ 13 ∷ [];
  buf_offset = 0;
  tx = [];
}

abbrev third_round : Upload lan
third_round = record {
  state = record { sent = 10 ∷ 11 ∷ 12 ∷ 13 ∷ 14 ∷ 15 ∷ []; last = true; block = 2 };
  file_buf = 14 ∷ 15 ∷ 12 ∷ 13 ∷ [];
  buf_offset = 0;
  tx = [];
}

abbrev quiet : Lan
quiet = record { rest = start.rest; inbox = [] }

abbrev one_left : Lan
one_left = record { rest = 14 ∷ 15 ∷ []; inbox = ([], 7) ∷ [] }

abbrev two_left : Lan
two_left = record { rest = []; inbox = ([], 7) ∷ ([], 7) ∷ [] }

first_round_run : round lan 1 7 0 first_round quiet ≡ done (ok (again second_round), one_left)
unfolding round receive reply fill_buf fill processed
first_round_run = refl

second_round_run : round lan 1 7 0 second_round one_left ≡ done (ok (again third_round), two_left)
unfolding round receive reply fill_buf fill processed
second_round_run = refl

third_round_run :
    round lan 1 7 0 third_round two_left
    ≡ done (ok finished, record { rest = []; inbox = ([], 7) ∷ ([], 7) ∷ ([], 7) ∷ [] })
unfolding round receive reply fill_buf fill processed
third_round_run = refl

third_round_follows :
    Follows lan lan_file lan_protocol lan_log 1 7 0 (first_round, quiet) third_round two_left
third_round_follows =
    Follows.later (Follows.later Follows.at_start first_round_run) second_round_run

Follows-Conserves_example :
    Conserves lan lan_file lan_protocol lan_log 0 quiet.rest third_round two_left
unfolding lan_file
Follows-Conserves_example =
    Follows-Conserves lan lan_file lan_protocol lan_log quiet.rest
      ((refl, omega arith, omega arith), refl, inl refl) third_round_follows

upload-Sent_example : third_round.state.sent ≡ quiet.rest
unfolding lan_file
upload-Sent_example =
    upload-Sent lan lan_file lan_protocol lan_log 1 7 [] buffer [] quiet none_sent 0 third_round
      two_left (record { rest = []; inbox = ([], 7) ∷ ([], 7) ∷ ([], 7) ∷ [] }) refl refl
      third_round_follows third_round_run

-- The remote has acknowledged twice before the upload starts.
abbrev eager : Lan
eager = record { rest = quiet.rest; inbox = (1 ∷ [], 7) ∷ (1 ∷ [], 7) ∷ [] }

upload-Delivers_example :
    (w : Lan) × (upload repeating 5 1 [] buffer [] 7 eager ≡ done (ok tt, w))
    × (u : Upload repeating) × (w1 : Lan) × Follows repeating repeating_file repeating_protocol
        repeating_log 1 7 0
        (record { state = none_sent; file_buf = buffer; buf_offset = 0; tx = [] }, eager)
        u
        w1
    × (round repeating 1 7 0 u w1 ≡ done (ok finished, w))
    × (u.state.sent ≡ eager.rest)
unfolding repeating_file
upload-Delivers_example =
    upload-Delivers repeating repeating_file repeating_protocol repeating_log 1 7 repeating_prompt 2
      2 [] buffer [] eager none_sent 0 refl (omega arith) refl ((refl, (refl, tt)), refl)
      (omega arith)
