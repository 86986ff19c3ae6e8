-- ===== src/Examples/Gps.antt =====
-- A receiver that sends one sentence, of a fix off the coast of Massachusetts.
use goby3_examples.Base.{
  ℕ, ◌≡◌, refl, Bool, true, false, Option, some, none, arith, ◌==◌, if◌then◌else◌,
}
use goby3_examples.Base.Int.{pos}
use goby3_examples.Base.Text.{Text, codes}
use goby3_examples.Gps.{Double, number, Sentence, published, parse_line, ThreadManager}
use goby3_examples.Gps.Conversion.{north, west}
use goby3_examples.Gps.Parsing.{Fix, IsFix, Spells, position, parse_line-published}
use goby3_examples.Gps.Control.{IsManager}

-- 12:35:19, 41 degrees 31.5000 minutes north, 70 degrees 40.2500 minutes west.
abbrev fix : Fix
fix = record {
  hours = 12;
  minutes = 35;
  seconds = 190000;
  latitude_degrees = 41;
  latitude_minutes = 315000;
  latitude_side = north;
  longitude_degrees = 70;
  longitude_minutes = 402500;
  longitude_side = west;
}

fix-IsFix : IsFix fix
fix-IsFix = record {
  minutes_in = omega arith;
  seconds_in = omega arith;
  latitude_in = omega arith;
  longitude_in = omega arith;
}

abbrev pub as_double : ℕ → Option Double
as_double n =
    if n == 1
    then some (number (pos 1235190000))
    else if n == 2
    then some (number (pos 41315000))
    else if n == 4
    then some (number (pos 70402500))
    else none

abbrev pub as_char : ℕ → Option ℕ
as_char n = if n == 3 then some b'N' else if n == 5 then some b'W' else none

abbrev pub sentence : Sentence
sentence = record { sentence_id = codes "GGA"; as_double = as_double; as_char = as_char }

sentence-Spells : Spells sentence fix
sentence-Spells = record {
  is_gga = refl;
  utc = refl;
  lat = refl;
  lat_hemi = refl;
  lon = refl;
  lon_hemi = refl;
}

abbrev pub nmea : Text → Option Sentence
nmea line = some sentence

parse_line-published_example : parse_line nmea (codes "$GPGGA") ≡ published (position fix)
parse_line-published_example =
    parse_line-published nmea (codes "$GPGGA") sentence fix fix-IsFix refl sentence-Spells

-- An application whose only thread is the serial one: whether it runs.
abbrev pub launch : Bool → Option Bool
launch true = none
launch false = some true

abbrev pub join : Bool → Option Bool
join true = some false
join false = none

abbrev pub manager : ThreadManager
manager = record {
  Threads = Bool;
  runs_serial = λ t. t;
  launch_serial = launch;
  join_serial = join;
}

launch_idle : (t : Bool) → t ≡ false → (u : Bool) × (launch t ≡ some u) × (u ≡ true)
launch_idle true h = absurd (cc)
launch_idle false h = (true, refl, refl)

join_running : (t : Bool) → t ≡ true → (u : Bool) × (join t ≡ some u) × (u ≡ false)
join_running true h = (false, refl, refl)
join_running false h = absurd (cc)

launch_running : (t : Bool) → t ≡ true → launch t ≡ none
launch_running true h = refl
launch_running false h = absurd (cc)

join_idle : (t : Bool) → t ≡ false → join t ≡ none
join_idle true h = absurd (cc)
join_idle false h = refl

pub manager-IsManager : IsManager manager
manager-IsManager = record {
  launch = launch_idle;
  join = join_running;
  launch_throws = launch_running;
  join_throws = join_idle;
}
