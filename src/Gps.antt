-- ===== src/Gps.antt =====
-- src/interprocess/zeromq/gps_driver: the GPS driver and its MOOS plugin.
--
-- The NMEA fields that the program reads as `double` have the form HHMMSS.SSSS or DDDMM.MMMM: they
-- are integers here, in ten-thousandths, and the two conversions are exact. A time comes out in
-- ten-thousandths of a second, an angle in units of 1 / 600000 degree (a ten-thousandth of a
-- minute). A `double` holds these up to its rounding. Goby's `NMEASentence` is the record
-- `Sentence`, in which a missing field is `none` (reading it throws), and its constructor, which
-- throws `bad_nmea_sentence`, is a function that is given. Log output is left out.
pub mod Conversion
pub mod Parsing
pub mod Control
pub mod Threads
pub mod Pipeline
use goby3_examples.Base.{
  ℕ, ◌+◌, ◌*◌, Bool, true, false, ◌||◌, Option, none, some, List, [], ◌∷◌, ◌==◌, if◌then◌else◌,
}
use goby3_examples.Base.Int.{ℤ, pos, ◌+ℤ◌, ◌-ℤ◌, ◌*ℤ◌, neg_ℤ, floor_div}
use goby3_examples.Base.Text.{Text, codes, text_eq}

abbrev pub ten_thousandths : ℕ
ten_thousandths = 10000

unfoldable pub nmea_time_to_seconds : ℤ → ℤ
nmea_time_to_seconds nmea_time =
    let hours = floor_div nmea_time 100000000 in
    let rest = nmea_time -ℤ hours *ℤ 100000000 in
    let minutes = floor_div rest 1000000 in
    let seconds = rest -ℤ minutes *ℤ 1000000 in hours *ℤ 36000000 +ℤ minutes *ℤ 600000 +ℤ seconds

unfoldable pub nmea_geo_to_decimal : ℤ → ℕ → ℤ
nmea_geo_to_decimal nmea_geo hemi =
    let deg_int = floor_div nmea_geo 1000000 in
    let deg_frac = nmea_geo -ℤ deg_int *ℤ 1000000 in
    let angle = deg_int *ℤ 600000 +ℤ deg_frac in
    if (hemi == b'S') || (hemi == b'W') then neg_ℤ angle else angle

-- A number that is read: `goby::util::as<double>` gives NaN for a field that is no number, such as an
-- empty one, and arithmetic keeps it NaN.
pub data Double : Type 0 where
  number : ℤ → Double
  nan : Double

abbrev pub lift : (ℤ → ℤ) → Double → Double
lift f (number z) = number (f z)
lift f nan = nan

-- `protobuf::GPSPosition`.
pub record GpsPosition : Type 0 where
  pub time : Double
  pub latitude : Double
  pub longitude : Double

pub record Sentence : Type 0 where
  pub sentence_id : Text
  pub as_double : ℕ → Option Double
  pub as_char : ℕ → Option ℕ

-- What a line comes to: a position, nothing (another sentence, or one that is logged as invalid),
-- or an exception that `parse_line` does not catch.
pub data Parsed : Type 0 where
  published : GpsPosition → Parsed
  other_sentence invalid_sentence uncaught : Parsed

infixl 5 ◌>>=◌
abbrev pub ◌>>=◌ {ℓ} : {A : Type ℓ} → Option A → (A → Parsed) → Parsed
none >>= f = uncaught
some a >>= f = f a

pub read_position : Sentence → Parsed
read_position s = do
  time ← s.as_double 1
  lat ← s.as_double 2
  lat_hemi ← s.as_char 3
  lon ← s.as_double 4
  lon_hemi ← s.as_char 5
  published (record {
    time = lift nmea_time_to_seconds time;
    latitude = lift (λ a. nmea_geo_to_decimal a lat_hemi) lat;
    longitude = lift (λ a. nmea_geo_to_decimal a lon_hemi) lon;
  })

pub read_sentence : Option Sentence → Parsed
read_sentence none = invalid_sentence
read_sentence (some s) =
    if text_eq s.sentence_id (codes "GGA") then read_position s else other_sentence

unfoldable pub parse_line : (Text → Option Sentence) → Text → Parsed
unfolding read_sentence read_position
parse_line nmea line = read_sentence (nmea line)

-- `SerialConfig`, as far as the configurator sets it.
pub record SerialConfig : Type 0 where
  pub baud : Option ℕ
  pub end_of_line : Option Text

abbrev pub or_set {ℓ} : {A : Type ℓ} → Option A → A → Option A
or_set none a = some a
or_set (some b) a = some b

-- `GPSDriverConfigurator`.
unfoldable pub configure : SerialConfig → SerialConfig
configure c = record {
  baud = or_set c.baud 4800;
  end_of_line = or_set c.end_of_line (b'\r' ∷ b'\n' ∷ []);
}

-- Goby's threads of one application, of which the serial thread is one: what `launch_thread` and
-- `join_thread` make of them, or `none` for a `goby::Exception`.
pub record ThreadManager : Type 1 where
  pub Threads : Type 0
  pub runs_serial : Threads → Bool
  pub launch_serial : Threads → Option Threads
  pub join_serial : Threads → Option Threads

module _ (tm : ThreadManager) where
  open tm use {Threads, launch_serial, join_serial}

  abbrev pub or_keep : Threads → Option Threads → Threads
  or_keep t none = t
  or_keep t (some u) = u

  -- The constructor of `GPSDriver` launches the serial thread; an exception leaves it.
  unfoldable pub gps_driver : Threads → Option Threads
  gps_driver t = launch_serial t

  -- `incoming_command`, on the command's `read_gps`.
  unfoldable pub incoming_command : Bool → Threads → Threads
  incoming_command true t = or_keep t (launch_serial t)
  incoming_command false t = or_keep t (join_serial t)

-- The constructor of `GPSController`: the command that it publishes, and `quit`.
pub data ControllerEffect : Type 0 where
  publish_command : Bool → ControllerEffect
  quit : ControllerEffect

unfoldable pub gps_controller : Bool → List ControllerEffect
gps_controller read_gps = publish_command read_gps ∷ quit ∷ []

-- moos_plugin.cpp: a MOOS message, with its time and value.
pub record MoosMessage : Type 0 where
  pub key : Text
  pub time : Double
  pub value : Double

-- `moos().buffer().at(…)` throws if the key has not arrived; the handler logs it.
pub buffered_position : MoosMessage → Option Double → Option GpsPosition
buffered_position m none = none
buffered_position m (some longitude) =
    some (record { time = m.time; latitude = m.value; longitude = longitude })

-- The position that `moos_to_goby` publishes, if it does.
unfoldable pub moos_to_goby : (Text → Option Double) → MoosMessage → Option GpsPosition
unfolding buffered_position
moos_to_goby buffer m =
    if text_eq m.key (codes "TEST_LATITUDE")
    then buffered_position m (buffer (codes "TEST_LONGITUDE"))
    else none

-- The variables that `goby_to_moos` notifies, in order.
unfoldable pub goby_to_moos : GpsPosition → List (Text × Double)
goby_to_moos p = (codes "GPS_LATITUDE", p.latitude) ∷ (codes "GPS_LONGITUDE", p.longitude) ∷ []
