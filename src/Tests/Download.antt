-- ===== src/Tests/Download.antt =====
-- Theorems on `download` of src/tftp.rs at concrete inputs.
use embassy_sandbox.Prelude.{panic, arith, ◌≡◌, refl, [], ◌∷◌, done}
use embassy_sandbox.Tftp.Run.{ok}
use embassy_sandbox.Tftp.Run.Holds.{Holds}
use embassy_sandbox.Tftp.Receive.{receive, reply}
use embassy_sandbox.Tftp.Download.{Download, finished, again, round, download}
use embassy_sandbox.Tftp.Download.End.{Fails, download-Fails}
use embassy_sandbox.Tftp.Download.Stored.{Follows, Stored, After, download-After}
use embassy_sandbox.Tftp.Download.Fetches.{download-Fetches}
use embassy_sandbox.Tftp.Simulated.{Lan, lan}
use embassy_sandbox.Tftp.Simulated.Serving.{file, serving, serving-Serves}
use embassy_sandbox.Tftp.Simulated.Downloading.{lan_contract}

-- Something is in the file, and two blocks come.
abbrev start : Lan
start = record { rest = 1 ∷ []; inbox = (20 ∷ 21 ∷ 22 ∷ 23 ∷ [], 7) ∷ (24 ∷ [], 7) ∷ [] }

abbrev after_one : Lan
after_one = record {
  rest = 1 ∷ 20 ∷ 21 ∷ 22 ∷ 23 ∷ [];
  inbox = (24 ∷ [], 7) ∷ ([], 7) ∷ ([], 7) ∷ [];
}

abbrev first_round : Download lan
first_round = record { state = []; tx = [] }

abbrev second_round : Download lan
second_round = record { state = 20 ∷ 21 ∷ 22 ∷ 23 ∷ []; tx = [] }

first_round_run : round lan 1 7 0 first_round start ≡ done (ok (again second_round), after_one)
unfolding round receive reply
first_round_run = refl

second_round_follows : Follows lan lan_contract 1 7 0 (first_round, start) second_round after_one
second_round_follows = Follows.later Follows.at_start first_round_run

download-After_example :
    Stored lan lan_contract 0 (1 ∷ []) second_round after_one
    × Holds
        (After lan lan_contract 0 (1 ∷ []) second_round)
        (round lan 1 7 0 second_round after_one)
download-After_example =
    download-After lan lan_contract 1 7 [] [] start [] 0 second_round after_one refl
      second_round_follows

download-Fails_example : Fails (download lan 2 2 [] [] 7 start)
download-Fails_example = download-Fails lan 2 2 [] [] 7 start

download-Fetches_example :
    (d : Download lan) × (w : Lan) × (w' : Lan) × Follows lan lan_contract 1 7 0
      (first_round, start)
      d
      w
    × (round lan 1 7 0 d w ≡ done (ok finished, w'))
    × (w'.rest ≡ 1 ∷ file)
    × (download lan 2 1 [] [] 7 start ≡ panic)
download-Fetches_example =
    download-Fetches lan lan_contract 1 7 serving file serving-Serves 1 [] [] start [] 0
      (omega arith) refl (refl, [], refl)
