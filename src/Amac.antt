-- ===== src/Amac.antt =====
-- src/components/acomms/amac/amac_simple/amac_simple.cpp: a MAC cycle that grows while it runs.
--
-- Goby's `MACManager` is a `std::list` of slots: its list operations are those of lists, and the
-- calls that the program makes on it are a list of calls, in their order. The last loop runs
-- forever; its rounds are counted.
pub mod Cycle
use goby3_examples.Base.{ℕ, zero, suc, Option, none, some, List, [], ◌∷◌, ◌++◌, replicate}
use goby3_examples.Base.Int.{ℤ, pos}
use goby3_examples.Modem.{
  ModemTransmission, data_type, driver_specific, remus_lbl_ranging, unset, MacConfig,
  fixed_decentralized,
}

unfoldable pub first_slot : ModemTransmission
first_slot = record unset { src = pos 1; rate = pos 0; type = data_type; slot_seconds = 5 }

unfoldable pub mac_config : MacConfig
unfolding first_slot
mac_config = record { type = fixed_decentralized; modem_id = pos 1; slot = first_slot ∷ [] }

unfoldable pub new_slot : ModemTransmission
new_slot = record unset { src = pos 2; rate = pos 0; type = data_type; slot_seconds = 5 }

-- `mac.resize(mac.size() + 1)`, which adds an unset slot, and `mac.back()` set to a slot made from
-- `mac.front()`.
pub copy_front :
    (ModemTransmission → ModemTransmission) → List ModemTransmission → List ModemTransmission
copy_front edit [] = edit unset ∷ []
copy_front edit (front ∷ slots) = (front ∷ slots) ++ edit front ∷ []

-- Step 5: three slots are added.
unfoldable pub add_slots : List ModemTransmission → List ModemTransmission
unfolding copy_front new_slot
add_slots mac =
    copy_front
      (λ slot. record slot { type = driver_specific; micromodem_type = some remus_lbl_ranging })
      (copy_front (λ slot. record slot { src = pos 3 }) (mac ++ new_slot ∷ []))

-- The calls on the manager; `edit` is one that changes the list of slots.
pub data Call : Type 0 where
  startup do_work edit update : Call

-- `for (unsigned i = 1; i < 150; ++i)`, from a given i with the rounds left.
pub work_loop : ℕ → List Call
work_loop zero = []
work_loop (suc left) = do_work ∷ work_loop left

-- The calls of `main`: three changes (a `push_back`, and two pairs of `resize` and assignments to
-- `back()`), and a number of rounds of the last loop.
unfoldable pub calls : ℕ → List Call
unfolding work_loop
calls rounds = startup ∷ (work_loop 149 ++ (edit ∷ edit ∷ edit ∷ update ∷ work_loop rounds))
