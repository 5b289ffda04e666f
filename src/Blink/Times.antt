-- ===== src/Blink/Times.antt =====
-- When the lights of `blink` of src/main.rs are on.
use embassy_sandbox.Prelude.{
  ℕ, zero, suc, ◌-◌, ◌*◌, ◌/◌, ◌%◌, ◌≤◌, ◌<◌, ◌≡◌, inl, inr, sym, ◌∙◌, ap, ap₂, arith, Bool, true,
  false, ◌&&◌, ◌==◌, ltb, if◌then◌else◌, le_or_lt,
}
use embassy_sandbox.Prelude.{List, [], ◌∷◌, ◌++◌}
use embassy_sandbox.Blink.{Light, ld1, ld2, Event, pass, blink}

-- Whether the light is on, that many milliseconds later, if it is now.
abbrev pub is_on : Light → Bool → List Event → ℕ → Bool
is_on light now [] t = now
is_on ld1 now (Event.set_high ld1 ∷ events) t = is_on ld1 true events t
is_on ld2 now (Event.set_high ld2 ∷ events) t = is_on ld2 true events t
is_on ld1 now (Event.set_low ld1 ∷ events) t = is_on ld1 false events t
is_on ld2 now (Event.set_low ld2 ∷ events) t = is_on ld2 false events t
is_on light now (Event.after_millis d ∷ events) t =
    let later = is_on light now events (t - d) in if ltb t d then now else later
is_on light now (_ ∷ events) t = is_on light now events t

after_pass :
    (light : Light) (now signaled : Bool) (events : List Event) (t : ℕ)
    → 2000 ≤ t
    → is_on light now (pass signaled ++ events) t ≡ is_on light false events (t - 2000)
after_pass ld1 now true events t h = grind arith
after_pass ld1 now false events t h = grind arith
after_pass ld2 now true events t h = grind arith
after_pass ld2 now false events t h = grind arith

ld1-in_pass :
    (now signaled : Bool) (events : List Event) (t : ℕ)
    → t < 2000
    → is_on ld1 now (pass signaled ++ events) t ≡ (t / 500 % 2 == 0)
ld1-in_pass now true events t h = ground arith
ld1-in_pass now false events t h = ground arith

ld2-in_pass :
    (signaled : Bool) (events : List Event) (t : ℕ)
    → t < 2000
    → is_on ld2 false (pass signaled ++ events) t ≡ (signaled && ltb t 1000)
ld2-in_pass true events t h = ground arith
ld2-in_pass false events t h = ground arith

-- While `n` passes last, two seconds each: the first light is on in the first half of each second,
-- and the second light, if it is off at the start, is on in the first second of those passes that
-- find `DHCP_UP` signaled.
pub blink-is_on :
    (signaled : ℕ → Bool) (n t : ℕ) (now : Bool)
    → t < 2000 * n
    → (is_on ld1 now (blink signaled n) t ≡ (t / 500 % 2 == 0))
      × (is_on ld2 false (blink signaled n) t ≡ (signaled (t / 2000) && ltb (t % 2000) 1000))
unfolding blink
blink-is_on signaled zero t now h = absurd (omega (arith, h))
blink-is_on signaled (suc n) t now h = elim (le_or_lt 2000 t) [
  | inl after ↦
      let (first, second) =
        blink-is_on (λ i. signaled (suc i)) n (t - 2000) false (omega (arith, h, after)) in
      let passes : suc ((t - 2000) / 2000) ≡ t / 2000 = omega (arith, after) in
      let rest : (t - 2000) % 2000 ≡ t % 2000 = omega (arith, after) in
      let halves : (t - 2000) / 500 % 2 ≡ t / 500 % 2 = omega (arith, after) in
      (
        after_pass ld1 now (signaled 0) _ t after ∙ first ∙ ap (λ k. k == 0) halves,
        after_pass ld2 false (signaled 0) _ t after
            ∙ second
            ∙ ap₂ (λ i k. signaled i && ltb k 1000) passes rest,
      )
  | inr within ↦
      let none : t / 2000 ≡ 0 = omega (arith, within) in
      let same : t % 2000 ≡ t = omega (arith, within) in
      (
        ld1-in_pass now (signaled 0) _ t within,
        ld2-in_pass (signaled 0) _ t within
            ∙ ap₂ (λ i k. signaled i && ltb k 1000) (sym none) (sym same),
      )
]
