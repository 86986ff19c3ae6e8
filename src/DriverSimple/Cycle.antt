-- ===== src/DriverSimple/Cycle.antt =====
-- How often the message is sent.
use goby3_examples.Base.{ℕ, zero, suc, ◌+◌, ◌/◌, ◌≡◌, refl, List, [], ◌∷◌, some, arith}
use goby3_examples.Base.Int.{ℤ}
use goby3_examples.Base.Text.{Text}
use goby3_examples.Modem.{ModemTransmission}
use goby3_examples.DriverSimple.{Effect, transmit, loop, hello, main}

abbrev sending : Effect → ℕ
sending (transmit m) = 1
sending _ = 0

-- How often a list of effects transmits.
abbrev pub transmissions : List Effect → ℕ
transmissions [] = 0
transmissions (e ∷ es) = sending e + transmissions es

loop-transmissions :
    (m : ModemTransmission) (rounds i : ℕ)
    → transmissions (loop m rounds i) + i / 600 ≡ (rounds + i) / 600
unfolding loop
loop-transmissions m zero i = omega arith
loop-transmissions m (suc rounds) i = ground (arith, loop-transmissions m rounds (i + 1))

-- With two arguments or more the program runs, and transmits at once and then once in every 600
-- rounds.
pub main-transmissions :
    (as_uint32 : Text → ℕ) (broadcast_id : ℤ) (name port id : Text) (more : List Text) (rounds : ℕ)
    → (es : List Effect) × (main as_uint32 broadcast_id (name ∷ port ∷ id ∷ more) rounds ≡ some es)
      × (transmissions es ≡ 1 + rounds / 600)
unfolding main
main-transmissions as_uint32 broadcast_id name port id more rounds =
    (_, refl, omega (arith, loop-transmissions (hello broadcast_id (as_uint32 id)) rounds 0))
