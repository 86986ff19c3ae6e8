-- ===== src/Examples/Dccl.antt =====
-- A codec that keeps each number as it is.
use goby3_examples.Base.{◌≡◌, refl, Bool, true, false, some, List, [], ◌∷◌, arith, ℕ, zero, suc}
use goby3_examples.Base.Int.{ℤ, pos, negsuc, ◌+ℤ◌, ◌*ℤ◌, ◌≤ℤ◌}
use goby3_examples.Base.Text.{Text, codes}
use goby3_examples.Dccl.{
  GoToCommand, HealthEnum, health_good, health_low_battery, health_abort, VehicleStatus, Codec,
  CodecLaws,
}
use goby3_examples.Dccl.TwoMessage
use goby3_examples.Dccl.TwoMessage.{command, status}
use goby3_examples.Dccl.Decoded.{two_message_receives}
use goby3_examples.Examples.Codec.{texts, texts_back}

abbrev put : ℤ → Text
put (pos n) = 0 ∷ n ∷ []
put (negsuc n) = 1 ∷ n ∷ []

abbrev get : Text → ℤ
get (zero ∷ n ∷ s) = pos n
get (suc k ∷ n ∷ s) = negsuc n
get _ = pos 0

get-put : (z : ℤ) → get (put z) ≡ z
get-put (pos n) = refl
get-put (negsuc n) = refl

abbrev put_bool : Bool → ℤ
put_bool true = pos 1
put_bool false = negsuc 0

abbrev get_bool : ℤ → Bool
get_bool (pos n) = true
get_bool (negsuc n) = false

get_bool-put_bool : (b : Bool) → get_bool (put_bool b) ≡ b
get_bool-put_bool true = refl
get_bool-put_bool false = refl

abbrev put_health : HealthEnum → ℤ
put_health health_good = pos 0
put_health health_low_battery = pos 1
put_health health_abort = negsuc 0

abbrev get_health : ℤ → HealthEnum
get_health (pos zero) = health_good
get_health (pos (suc n)) = health_low_battery
get_health (negsuc n) = health_abort

get_health-put_health : (h : HealthEnum) → get_health (put_health h) ≡ h
get_health-put_health health_good = refl
get_health-put_health health_low_battery = refl
get_health-put_health health_abort = refl

abbrev of_command : GoToCommand → List Text
of_command m =
    put m.destination
    ∷ put m.goto_x
    ∷ put m.goto_y
    ∷ put (put_bool m.lights_on)
    ∷ m.new_instructions
    ∷ put m.goto_speed
    ∷ []

abbrev to_command : List Text → GoToCommand
to_command (a ∷ x ∷ y ∷ b ∷ s ∷ v ∷ rest) = record {
  destination = get a;
  type = some (codes "goto");
  goto_x = get x;
  goto_y = get y;
  lights_on = get_bool (get b);
  new_instructions = s;
  goto_speed = get v;
}
to_command _ = command

abbrev of_status : VehicleStatus → List Text
of_status m = put m.nav_x ∷ put m.nav_y ∷ put (put_health m.health) ∷ []

abbrev to_status : List Text → VehicleStatus
to_status (x ∷ y ∷ h ∷ rest) = record { nav_x = get x; nav_y = get y; health = get_health (get h) }
to_status _ = status

abbrev exact : Codec
exact = record {
  encode_simple = λ m. some m.telegram;
  decode_simple = λ s. record { telegram = s };
  encode_command = λ m. some (texts.write (of_command m));
  decode_command = λ s. to_command (texts.read s).0;
  encode_status = λ m. some (texts.write (of_status m));
  decode_status = λ s. to_status (texts.read s).0;
}

same_or_more : (v : ℤ) (unit : ℕ) → v *ℤ 2 ≤ℤ v *ℤ 2 +ℤ pos unit
unfolding ◌+ℤ◌ ◌*ℤ◌
same_or_more (pos n) unit = ground arith
same_or_more (negsuc n) unit = ground arith

exact-laws : CodecLaws exact
exact-laws = record {
  round = λ unit v. v;
  round_multiple = λ unit v. refl;
  round_up = λ unit v. same_or_more v unit;
  round_down = λ unit v. same_or_more v unit;
  takes_simple = λ m fits. (m.telegram, refl, refl);
  takes_command = λ m fits. (
    texts.write (of_command m),
    refl,
    rw
        (
          texts_back (of_command m),
          get-put m.destination,
          get-put m.goto_x,
          get-put m.goto_y,
          get-put (put_bool m.lights_on),
          get_bool-put_bool m.lights_on,
          get-put m.goto_speed,
        )
        refl,
  );
  takes_status = λ m fits. (
    texts.write (of_status m),
    refl,
    rw
        (
          texts_back (of_status m),
          get-put m.nav_x,
          get-put m.nav_y,
          get-put (put_health m.health),
          get_health-put_health m.health,
        )
        refl,
  );
}

two_message_receives_example :
    (bytes2 bytes3 : Text) × (speed : ℤ) × (TwoMessage.main exact
      ≡ some (
          TwoMessage.passing command status
          ∷ TwoMessage.hexadecimal bytes2
          ∷ TwoMessage.hexadecimal bytes3
          ∷ TwoMessage.passed_hexadecimal bytes2
          ∷ TwoMessage.passed_hexadecimal bytes3
          ∷ TwoMessage.received
              (record command { type = some (codes "goto"); goto_speed = speed })
              status
          ∷ []))
    × (pos 23406 ≤ℤ speed)
    × (speed ≤ℤ pos 23506)
two_message_receives_example = two_message_receives exact exact-laws
