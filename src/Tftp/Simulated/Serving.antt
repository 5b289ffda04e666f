-- ===== src/Tftp/Simulated/Serving.antt =====
-- A remote that serves a file of two blocks to `download` of src/tftp.rs.
use embassy_sandbox.Prelude.{
  ℕ, zero, suc, ◌≡◌, ◌<◌, refl, arith, ◌==◌, Bool, length, List, [], ◌∷◌, ◌++◌,
}
use embassy_sandbox.Tftp.Run.{Result, ok, err}
use mathlib.Core.Path.{subst}
use embassy_sandbox.Tftp.Net.{BlockReceived}
use embassy_sandbox.Tftp.Receive.Laws.{Arrives}
use embassy_sandbox.Tftp.Download.Prompt.{Prompt}
use embassy_sandbox.Tftp.Download.Fetches.{Carries, Serves}
use embassy_sandbox.Tftp.Simulated.{Lan, lan, block}
use embassy_sandbox.Tftp.Simulated.Downloading.{lan_contract}

abbrev pub first_block : List ℕ
first_block = 20 ∷ 21 ∷ 22 ∷ 23 ∷ []

abbrev pub last_block : List ℕ
last_block = 24 ∷ []

abbrev pub file : List ℕ
file = first_block ++ last_block

-- With so many whole blocks before the final one, the remote has got so far with the file.
abbrev Awaits : ℕ → List ℕ → Lan → Type 0
Awaits zero s w =
    (s ≡ first_block) × (others : List (List ℕ × ℕ)) × (w.inbox ≡ (last_block, 7) ∷ others)
Awaits (suc zero) s w =
    (s ≡ [])
    × (others : List (List ℕ × ℕ)) × (w.inbox ≡ (first_block, 7) ∷ (last_block, 7) ∷ others)
Awaits (suc (suc left)) s w = ⊥

abbrev Heard : ℕ → List ℕ → List ℕ → Lan → Type 0
Heard zero s received w = (s ≡ first_block) × (received ≡ last_block)
Heard (suc zero) s received w =
    (s ≡ [])
    × (received ≡ first_block)
    × (others : List (List ℕ × ℕ)) × (w.inbox ≡ (last_block, 7) ∷ others)
Heard (suc (suc left)) s received w = ⊥

pub served :
    (left : ℕ) (s d : List ℕ) (w : Lan)
    → Awaits left s w
    → (k : ℕ) × (received : List ℕ) × (w' : Lan) × Arrives lan
        (λ m. m == 7)
        received
        w'
        k
        (record { rest = w.rest; inbox = w.inbox ++ ((d, 7) ∷ []) })
      × (k < 1)
      × Heard left s received w'
served zero s d w (e, others, i) = (
  0,
  last_block,
  record { rest = w.rest; inbox = others ++ ((d, 7) ∷ []) },
  rw i (Arrives.now refl refl),
  omega arith,
  (e, refl),
)
served (suc zero) s d w (e, others, i) = (
  0,
  first_block,
  record { rest = w.rest; inbox = (last_block, 7) ∷ (others ++ ((d, 7) ∷ [])) },
  rw i (Arrives.now refl refl),
  omega arith,
  (e, refl, others ++ ((d, 7) ∷ []), refl),
)
served (suc (suc left)) s d w a = absurd a

pub goes_on :
    (left : ℕ) (s received : List ℕ) (w : Lan)
    → Heard (suc left) s received w
    → (s' : List ℕ) × (bytes : List ℕ) × (◌≡◌ {A = Result Bool (BlockReceived (List ℕ))}
        (ok (block s received))
        (ok (BlockReceived.intermediate s' bytes)))
      × Awaits left s' (record { rest = w.rest ++ bytes; inbox = w.inbox ++ (([], 7) ∷ []) })
goes_on zero s received w (e, r, others, i) =
    (first_block, first_block, rw (e, r) refl, (refl, others ++ (([], 7) ∷ []), rw i refl))
goes_on (suc left) s received w h = absurd h

pub ends :
    (s received : List ℕ) (w : Lan)
    → Heard zero s received w
    → (bytes : List ℕ) × (◌≡◌ {A = Result Bool (BlockReceived (List ℕ))}
        (ok (block s received))
        (ok (BlockReceived.final bytes)))
      × Unit {0}
ends s received w (e, r) = (last_block, rw (e, r) refl, tt)

abbrev pub serving : Prompt lan 1 7
serving = record {
  awaits = Awaits;
  heard = Heard;
  over = λ w. Unit;
  sends = λ d w. refl;
  writes = λ bytes w. refl;
  answers = λ left s d w a. served left s d w a;
  ends = λ s received tx w h. ends s received w h;
  goes_on = λ left s received tx w h. goes_on left s received w h;
}

abbrev CarriesAny : ℕ → Result Bool (BlockReceived (List ℕ)) → Type 0
CarriesAny n (ok b) = Carries 4 file n b
CarriesAny n (err e) = Unit

pub serving-Serves : Serves lan lan_contract 1 7 serving file
serving-Serves zero s received tx w (e, r) b q =
    let here : CarriesAny (length s) (ok (block s received)) = rw (e, r) (refl, omega arith) in
    subst (CarriesAny (length s)) q here
serving-Serves (suc zero) s received tx w (e, r, others, i) b q =
    let here : CarriesAny (length s) (ok (block s received)) = rw (e, r) refl in
    subst (CarriesAny (length s)) q here
serving-Serves (suc (suc left)) s received tx w h b q = absurd h
