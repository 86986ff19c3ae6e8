-- ===== src/Dccl.antt =====
-- src/components/acomms/dccl: programs that encode messages, and decode them again.
--
-- The codec is Goby's `goby::acomms::DCCLCodec`, here the record `Codec`; an `encode` that throws
-- gives `none`. `CodecLaws` says that it takes the messages that fit the bounds of their .proto file
-- and gives them back with each number rounded to its field's precision. A number of a field is an
-- integer in ten-thousandths. Fixed texts are left out of the outputs.
pub mod DcclSimple
pub mod TwoMessage
pub mod Decoded
use goby3_examples.Base.{ℕ, ◌*◌, ◌≤◌, ◌≡◌, Bool, Option, none, some, length}
use goby3_examples.Base.Int.{ℤ, pos, ◌+ℤ◌, ◌*ℤ◌, ◌≤ℤ◌}
use goby3_examples.Base.Text.{Text, codes}

-- The messages of simple.proto and of two_message.proto.
pub record Simple : Type 0 where
  pub telegram : Text

pub record GoToCommand : Type 0 where
  pub destination : ℤ
  pub type : Option Text
  pub goto_x : ℤ
  pub goto_y : ℤ
  pub lights_on : Bool
  pub new_instructions : Text
  pub goto_speed : ℤ

pub data HealthEnum : Type 0 where
  health_good health_low_battery health_abort : HealthEnum

pub record VehicleStatus : Type 0 where
  pub nav_x : ℤ
  pub nav_y : ℤ
  pub health : HealthEnum

abbrev Within : ℤ → ℕ → Type 0
Within v most = (pos 0 ≤ℤ v) × (v ≤ℤ pos (most * 10000))

-- The bounds of the .proto files.
abbrev pub SimpleFits : Simple → Type 0
SimpleFits m = length m.telegram ≤ 30

abbrev pub CommandFits : GoToCommand → Type 0
CommandFits m =
    Within m.destination 31
    × Within m.goto_x 10000
    × Within m.goto_y 10000
    × (length m.new_instructions ≤ 10)
    × Within m.goto_speed 3

abbrev pub StatusFits : VehicleStatus → Type 0
StatusFits m = Within m.nav_x 10000 × Within m.nav_y 10000

-- `round unit v` is v as a field whose precision is that unit carries it.
abbrev pub Round : Type 0
Round = ℕ → ℤ → ℤ

-- The units are those of the precisions 0, 1 and 2; `type` is static, and always decoded.
abbrev pub decoded_command : Round → GoToCommand → GoToCommand
decoded_command round m = record m {
  destination = round 10000 m.destination;
  type = some (codes "goto");
  goto_x = round 10000 m.goto_x;
  goto_y = round 10000 m.goto_y;
  goto_speed = round 100 m.goto_speed;
}

abbrev pub decoded_status : Round → VehicleStatus → VehicleStatus
decoded_status round m = record m { nav_x = round 1000 m.nav_x; nav_y = round 1000 m.nav_y }

pub record Codec : Type 0 where
  pub encode_simple : Simple → Option Text
  pub decode_simple : Text → Simple
  pub encode_command : GoToCommand → Option Text
  pub decode_command : Text → GoToCommand
  pub encode_status : VehicleStatus → Option Text
  pub decode_status : Text → VehicleStatus

-- A multiple of the unit is kept, and any number moves by at most half of the unit.
pub record CodecLaws (d : Codec) : Type 0 where
  pub round : Round
  pub round_multiple : (unit : ℕ) (v : ℤ) → round unit (v *ℤ unit) ≡ v *ℤ unit
  pub round_up : (unit : ℕ) (v : ℤ) → round unit v *ℤ 2 ≤ℤ v *ℤ 2 +ℤ pos unit
  pub round_down : (unit : ℕ) (v : ℤ) → v *ℤ 2 ≤ℤ round unit v *ℤ 2 +ℤ pos unit
  pub takes_simple :
      (m : Simple)
      → SimpleFits m
      → (bytes : Text) × (d.encode_simple m ≡ some bytes) × (d.decode_simple bytes ≡ m)
  pub takes_command :
      (m : GoToCommand)
      → CommandFits m
      → (bytes : Text) × (d.encode_command m ≡ some bytes)
        × (d.decode_command bytes ≡ decoded_command round m)
  pub takes_status :
      (m : VehicleStatus)
      → StatusFits m
      → (bytes : Text) × (d.encode_status m ≡ some bytes)
        × (d.decode_status bytes ≡ decoded_status round m)
