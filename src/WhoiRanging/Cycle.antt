-- ===== src/WhoiRanging/Cycle.antt =====
-- Which arguments are taken, and how often a range is asked for.
use goby3_examples.Base.{
  ℕ, zero, suc, ◌+◌, ◌/◌, ◌<◌, ◌^◌, ◌≡◌, refl, List, [], ◌∷◌, some, true, arith,
}
use goby3_examples.Base.Text.{Text, codes, text_eq}
use goby3_examples.Modem.{
  ModemTransmission, MicromodemType, remus_lbl_ranging, narrowband_lbl_ranging,
}
use goby3_examples.WhoiRanging.{
  Params, remus, narrowband, Effect, start, transmit, announce, loop, request_for, our_id, main,
}

-- A list of effects asks for ranges of one kind only.
abbrev Asking : MicromodemType → Effect → Type 0
Asking k (transmit m) = m.micromodem_type ≡ some k
Asking k _ = Unit

abbrev pub AsksFor : MicromodemType → List Effect → Type 0
AsksFor k [] = Unit
AsksFor k (e ∷ es) = Asking k e × AsksFor k es

abbrev sending : Effect → ℕ
sending (transmit m) = 1
sending _ = 0

-- How often a list of effects asks for a range.
abbrev pub requests : List Effect → ℕ
requests [] = 0
requests (e ∷ es) = sending e + requests es

loop-requests :
    (m : ModemTransmission) (rounds i : ℕ)
    → requests (loop m rounds i) + i / 600 ≡ (rounds + i) / 600
unfolding loop
loop-requests m zero i = omega arith
loop-requests m (suc rounds) i = ground (arith, loop-requests m rounds (i + 1))

loop-AsksFor :
    (k : MicromodemType) (m : ModemTransmission) (rounds i : ℕ)
    → m.micromodem_type ≡ some k
    → AsksFor k (loop m rounds i)
unfolding loop
loop-AsksFor k m zero i h = tt
loop-AsksFor k m (suc rounds) i h = ground (arith, loop-AsksFor k m rounds (i + 1) h)

-- The program configures the driver for one kind of ping, asks for ranges of that kind only, at
-- once and then once in every 600 rounds.
pub record IsRun (rounds : ℕ) (k : MicromodemType) (p : Params) (port : Text) (es : List Effect)
    : Type 0 where
  pub rest : List Effect
  pub starts : es ≡ start port our_id (some p) ∷ rest
  pub kind : AsksFor k es
  pub count : requests es ≡ 1 + rounds / 600

cycle-IsRun :
    (rounds : ℕ) (k : MicromodemType) (p : Params) (port : Text) (m : ModemTransmission)
    → m.micromodem_type ≡ some k
    → IsRun rounds k p port (start port our_id (some p) ∷ announce m ∷ transmit m ∷ loop m rounds 0)
cycle-IsRun rounds k p port m h = record {
  rest = announce m ∷ transmit m ∷ loop m rounds 0;
  starts = refl;
  kind = (tt, (tt, (h, loop-AsksFor k m rounds 0 h)));
  count = omega (arith, loop-requests m rounds 0);
}

module _ (as_unsigned : Text → ℕ) (name port range : Text) (more : List Text) (rounds : ℕ)
    (no_overflow : rounds < 2 ^ 31) where
  -- In fewer than 2 ^ 31 rounds, in which the int that counts them does not overflow: with "remus" or "narrowband" as its type, and any other arguments, the program configures the
  -- driver for that kind of ping, and asks for ranges of that kind only, at once and then once in
  -- every 600 rounds.
  pub main-IsRun :
      (es fs : List Effect) × (main as_unsigned (name ∷ port ∷ codes "remus" ∷ range ∷ more) rounds
        ≡ some es)
      × IsRun rounds remus_lbl_ranging (remus 50 15 (as_unsigned range)) port es
      × (main as_unsigned (name ∷ port ∷ codes "narrowband" ∷ range ∷ more) rounds ≡ some fs)
      × IsRun rounds narrowband_lbl_ranging
          (narrowband 20 26000 5 5 (25000 ∷ []) true (as_unsigned range))
          port
          fs
  unfolding main text_eq
  main-IsRun = (
    _,
    _,
    refl,
    cycle-IsRun rounds _ _ port (request_for (codes "remus")) refl,
    refl,
    cycle-IsRun rounds _ _ port (request_for (codes "narrowband")) refl,
  )
