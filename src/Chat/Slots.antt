-- ===== src/Chat/Slots.antt =====
-- The MAC cycle that the two ends of a chat configure.
use goby3_examples.Base.{ℕ, suc, ◌≡◌, sym, ◌≢◌, List, [], ◌∷◌, if◌then◌else◌, arith}
use goby3_examples.Base.Int.{ℤ, ◌==ℤ◌, eq_of_parts}
use goby3_examples.Modem.{ModemTransmission, MacConfig}
use goby3_examples.Chat.{mac_config}

abbrev slots_from : ℤ → List ModemTransmission → ℕ
slots_from id [] = 0
slots_from id (s ∷ ss) = let rest = slots_from id ss in if s.src ==ℤ id then suc rest else rest

-- How many slots of the cycle are a modem's own.
abbrev pub own_slots : MacConfig → ℕ
own_slots c = slots_from c.modem_id c.slot

mac_config-slot : (a b : ℤ) → (mac_config a b).slot ≡ (mac_config b a).slot
unfolding mac_config
mac_config-slot a b = ground (arith, eq_of_parts a b)

mac_config_once : (a b : ℤ) → a ≢ b → own_slots (mac_config a b) ≡ 1
unfolding mac_config
mac_config_once a b h = ground (arith, eq_of_parts a b)

-- Two modems with different ids configure one and the same cycle, in which each has one slot.
pub mac_config-own_slots :
    (a b : ℤ)
    → a ≢ b
    → ((mac_config a b).slot ≡ (mac_config b a).slot)
      × (own_slots (mac_config a b) ≡ 1)
      × (own_slots (mac_config b a) ≡ 1)
mac_config-own_slots a b h =
    (mac_config-slot a b, mac_config_once a b h, mac_config_once b a (λ e. h (sym e)))
