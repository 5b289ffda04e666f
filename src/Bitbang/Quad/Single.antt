-- ===== src/Bitbang/Quad/Single.antt =====
-- The transfers of `QuadSpi` on one line, of src/bitbang.rs, beside one another and beside `Spi`.
use embassy_sandbox.Prelude.{ℕ, zero, suc, ◌≡◌, refl, ◌∙◌, ap, ap₂, List, [], ◌∷◌, map, bit_or}
use embassy_sandbox.Bitbang.Wire.{Level, Event, History, M, ◌>>=◌, pure}
use embassy_sandbox.Bitbang.Types.{Cpol, Cpha}
use embassy_sandbox.Bitbang.Bits.{place}
use embassy_sandbox.Bitbang.Spi
use embassy_sandbox.Bitbang.Spi.{transmit_bit, transmit_bits, transmit_byte, transmit_all}
use embassy_sandbox.Bitbang.Quad.Bytes.{
  Pin, ncs, sck, d0_mosi, d1_miso, QuadSpi, single_bit, single_bits, single_transmit_byte_,
}
use embassy_sandbox.Bitbang.Quad.Transfers.{
  single_transmit_, single_transmit_in_place_, framed, single_transfer, single_transfer_in_place,
}

module _ (sense : Pin → History Pin → Level) (spi : QuadSpi) where
  in_place-eq-transmit :
      (trx : List ℕ) → single_transmit_in_place_ sense spi trx ≡ single_transmit_ sense spi trx trx
  unfolding single_transmit_in_place_ single_transmit_
  in_place-eq-transmit [] = refl
  in_place-eq-transmit (t ∷ trx) =
      ap
        (λ others. single_transmit_byte_ sense spi t >>= λ received.
          others >>= λ rest. pure (received ∷ rest))
        (in_place-eq-transmit trx)

  -- Whatever the inputs read, a transfer in place is the transfer that sends the buffer and fills it
  -- again: in the bytes that it returns and in all that it does with the pins.
  pub single_transfer_in_place-eq :
      (trx : List ℕ) (h : History Pin)
      → single_transfer_in_place sense spi trx h ≡ single_transfer sense spi trx trx h
  unfolding single_transfer_in_place single_transfer
  single_transfer_in_place-eq trx h =
      ap (λ body. framed sense spi body h) (in_place-eq-transmit trx)

-- The pins of a `Spi`, and all that was done with them, on those of a `QuadSpi`.
abbrev pub pin_of : Spi.Pin → Pin
pin_of Spi.ncs = ncs
pin_of Spi.sck = sck
pin_of Spi.mosi = d0_mosi
pin_of Spi.miso = d1_miso

abbrev pub event_of : Event Spi.Pin → Event Pin
event_of (Event.set_level pin level) = Event.set_level (pin_of pin) level
event_of (Event.toggle pin) = Event.toggle (pin_of pin)
event_of (Event.set_as_input pin) = Event.set_as_input (pin_of pin)
event_of (Event.set_as_output pin) = Event.set_as_output (pin_of pin)
event_of (Event.block_for d) = Event.block_for d

abbrev pub history_of : History Spi.Pin → History Pin
history_of = map event_of

abbrev pub quad_of : Spi.Spi → QuadSpi
quad_of spi = record {
  min_sck_half_cycle = spi.min_sck_half_cycle;
  cs_high_time = spi.cs_high_time;
  cpol = spi.cpol;
  cpha = spi.cpha;
}

abbrev pub outcome_of : {A : Type 0} → A × History Spi.Pin → A × History Pin
outcome_of (a, h) = (a, history_of h)

-- An input reads the same on both.
abbrev pub SameInput : (Pin → History Pin → Level) → (Spi.Pin → History Spi.Pin → Level) → Type 0
SameInput sense sense' = (h : History Spi.Pin) → sense d1_miso (history_of h) ≡ sense' Spi.miso h

module _ (sense : Pin → History Pin → Level) (sense' : Spi.Pin → History Spi.Pin → Level)
    (same : SameInput sense sense') where
  bit_of_phase-eq :
      (half high : ℕ) (cpol : Cpol) (cpha : Cpha) (tx pos rx : ℕ) (h : History Spi.Pin)
      → let spi : Spi.Spi = record {
        min_sck_half_cycle = half;
        cs_high_time = high;
        cpol = cpol;
        cpha = cpha;
      } in
        single_bit sense (quad_of spi) tx pos rx (history_of h)
        ≡ outcome_of (transmit_bit sense' spi tx pos rx h)
  unfolding single_bit transmit_bit
  bit_of_phase-eq half high cpol Cpha._0 tx pos rx h =
      ap₂ (λ a b. (a, b)) (ap (λ level. bit_or rx (place level pos)) (same _)) refl
  bit_of_phase-eq half high cpol Cpha._1 tx pos rx h =
      ap₂ (λ a b. (a, b)) (ap (λ level. bit_or rx (place level pos)) (same _)) refl

  module _ (spi : Spi.Spi) where
    -- The same result, and the same done with the pins.
    Same : {A : Type 0} → M Pin A → M Spi.Pin A → Type 0
    Same m m' = (h : History Spi.Pin) → m (history_of h) ≡ outcome_of (m' h)

    pure-Same : {A : Type 0} (a : A) → Same (pure a) (pure a)
    unfolding Same
    pure-Same a h = refl

    bind-Same :
        {A B : Type 0} (m : M Pin A) (m' : M Spi.Pin A) (f : A → M Pin B) (f' : A → M Spi.Pin B)
        → Same m m'
        → ((a : A) → Same (f a) (f' a))
        → Same (m >>= f) (m' >>= f')
    unfolding Same
    bind-Same m m' f f' e k h = ap (λ r. f r.0 r.1) (e h) ∙ k (m' h).0 (m' h).1

    bit-Same :
        (tx pos rx : ℕ)
        → Same (single_bit sense (quad_of spi) tx pos rx) (transmit_bit sense' spi tx pos rx)
    unfolding Same
    bit-Same tx pos rx h =
        bit_of_phase-eq spi.min_sck_half_cycle spi.cs_high_time spi.cpol spi.cpha tx pos rx h

    bits-Same :
        (n tx rx : ℕ)
        → Same (single_bits sense (quad_of spi) n tx rx) (transmit_bits sense' spi n tx rx)
    unfolding single_bits transmit_bits
    bits-Same zero tx rx = pure-Same rx
    bits-Same (suc n) tx rx = bind-Same _ _ _ _ (bit-Same tx n rx) (λ r. bits-Same n tx r)

    byte-Same :
        (tx : ℕ) → Same (single_transmit_byte_ sense (quad_of spi) tx) (transmit_byte sense' spi tx)
    unfolding single_transmit_byte_ transmit_byte
    byte-Same tx = bits-Same 8 tx 0

    next-Same :
        (t : ℕ) (others : M Pin (List ℕ)) (others' : M Spi.Pin (List ℕ))
        → Same others others'
        → Same
            (single_transmit_byte_ sense (quad_of spi) t >>= λ r.
              others >>= λ rest. pure (r ∷ rest))
            (transmit_byte sense' spi t >>= λ r. others' >>= λ rest. pure (r ∷ rest))
    next-Same t others others' e =
        bind-Same _ _ _ _ (byte-Same t) (λ r. bind-Same _ _ _ _ e (λ rest. pure-Same (r ∷ rest)))

    transmit-Same :
        (tx rx : List ℕ)
        → Same (single_transmit_ sense (quad_of spi) tx rx) (transmit_all sense' spi tx rx)
    unfolding single_transmit_ transmit_all
    transmit-Same [] [] = pure-Same []
    transmit-Same [] (r ∷ rx) = next-Same 0 _ _ (transmit-Same [] rx)
    transmit-Same (t ∷ tx) [] = bind-Same _ _ _ _ (byte-Same t) (λ discard. transmit-Same tx [])
    transmit-Same (t ∷ tx) (r ∷ rx) = next-Same t _ _ (transmit-Same tx rx)

    -- With the pins named alike and inputs that read the same, the bytes that `QuadSpi` exchanges on
    -- one line, and all it does with its pins, are those of `Spi` with the same times and modes.
    pub single_transmit_-eq :
        (tx rx : List ℕ) (h : History Spi.Pin)
        → single_transmit_ sense (quad_of spi) tx rx (history_of h)
          ≡ outcome_of (transmit_all sense' spi tx rx h)
    unfolding Same
    single_transmit_-eq tx rx h = transmit-Same tx rx h
