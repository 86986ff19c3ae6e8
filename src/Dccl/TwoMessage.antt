-- ===== src/Dccl/TwoMessage.antt =====
-- two_message/two_message.cpp: a command and a status, encoded and decoded.
use goby3_examples.Base.{Option, none, some, List, [], ◌∷◌, true}
use goby3_examples.Base.Int.{pos}
use goby3_examples.Base.Text.{Text, codes}
use goby3_examples.Dccl.{GoToCommand, VehicleStatus, health_abort, Codec}

pub data Output : Type 0 where
  passing received : GoToCommand → VehicleStatus → Output
  hexadecimal passed_hexadecimal : Text → Output

abbrev pub command : GoToCommand
command = record {
  destination = pos 20000;
  type = none;
  goto_x = pos 4230000;
  goto_y = pos 5230000;
  lights_on = true;
  new_instructions = codes "make_toast";
  goto_speed = pos 23456;
}

abbrev pub status : VehicleStatus
status = record { nav_x = pos 2345000; nav_y = pos 4513000; health = health_abort }

-- `main` from the two calls of `encode` on, of which either may throw.
unfoldable pub finish : Codec → Option Text → Option Text → Option (List Output)
finish d none _ = none
finish d (some bytes2) none = none
finish d (some bytes2) (some bytes3) = some (
    passing command status
    ∷ hexadecimal bytes2
    ∷ hexadecimal bytes3
    ∷ passed_hexadecimal bytes2
    ∷ passed_hexadecimal bytes3
    ∷ received (d.decode_command bytes2) (d.decode_status bytes3)
    ∷ [])

unfoldable pub main : Codec → Option (List Output)
unfolding finish
main d = finish d (d.encode_command command) (d.encode_status status)
