-- ===== src/Gps/Threads.antt =====
-- gps_driver.cpp and moos_plugin.cpp: the threads that the driver launches, what they subscribe to,
-- and the lines, positions and commands that pass between them.
--
-- An exception that `parse_line` does not catch ends the driver.
use goby3_examples.Base.{
  each, ℕ, Bool, true, false, Option, none, some, List, [], ◌∷◌, ◌++◌, map, if◌then◌else◌,
}
use goby3_examples.Base.Text.{Text, codes}
use goby3_examples.PubSub.{
  interthread, interprocess, Transporter, Publication, Subscription, spread,
}
use goby3_examples.Gps.{
  Double, GpsPosition, Sentence, Parsed, published, uncaught, parse_line, ThreadManager,
  incoming_command, ControllerEffect, publish_command, quit, gps_controller, goby_to_moos,
}

pub data Mail : Type 0 where
  io_data : Text → Mail
  gps_position : GpsPosition → Mail
  gps_command : Bool → Mail

pub data Effect : Type 0 where
  publish : Publication Mail → Effect
  log_position : GpsPosition → Effect
  command : Bool → Effect
  notify : Text × Double → Effect
  throws : Effect

abbrev pub gps_data : GpsPosition → Publication Mail
gps_data p = record { layer = interprocess; group = codes "gps_data"; message = gps_position p }

abbrev pub gps_raw_in : Text → Publication Mail
gps_raw_in line = record { layer = interthread; group = codes "gps_raw_in"; message = io_data line }

abbrev pub gps_control : Bool → Publication Mail
gps_control b = record {
  layer = interprocess;
  group = codes "gps_control";
  message = gps_command b;
}

-- `parse_line` publishes on the interprocess layer.
unfoldable pub parsed_effects : Parsed → List Effect
parsed_effects (published p) = publish (gps_data p) ∷ []
parsed_effects uncaught = throws ∷ []
parsed_effects _ = []

pub on_raw : (Text → Option Sentence) → Mail → Option (List Effect)
unfolding parsed_effects
on_raw nmea (io_data line) = some (parsed_effects (parse_line nmea line))
on_raw nmea _ = none

pub on_position : Mail → Option (List Effect)
on_position (gps_position p) = some (log_position p ∷ [])
on_position _ = none

pub on_command : Mail → Option (List Effect)
on_command (gps_command b) = some (command b ∷ [])
on_command _ = none

-- What MOOS is notified of, of a position that DCCL has given back.
abbrev pub notices : Option GpsPosition → List (Text × Double)
notices none = []
notices (some p) = goby_to_moos p

-- The gateway is another process: it gets what DCCL makes of a position, by gps.proto. That function
-- is given; it is `none` for a position that cannot be encoded.
pub on_gps_data : (GpsPosition → Option GpsPosition) → Mail → Option (List Effect)
on_gps_data carry (gps_position p) = some (map notify (notices (carry p)))
on_gps_data carry _ = none

-- The constructor of `GPSParseThread`.
unfoldable pub gps_parse_thread : (Text → Option Sentence) → Subscription Mail Effect
unfolding on_raw parsed_effects
gps_parse_thread nmea = record {
  layer = interthread;
  group = codes "gps_raw_in";
  callback = on_raw nmea;
}

-- The constructor of `GPSAnalyzeThread`.
unfoldable pub gps_analyze_thread : Subscription Mail Effect
unfolding on_position
gps_analyze_thread = record {
  layer = interthread;
  group = codes "gps_data";
  callback = on_position;
}

-- The constructor of `GPSDriver` subscribes, and launches the threads.
unfoldable pub driver_subscriptions : (Text → Option Sentence) → List (Subscription Mail Effect)
unfolding gps_parse_thread gps_analyze_thread on_command
driver_subscriptions nmea =
    record { layer = interprocess; group = codes "gps_control"; callback = on_command }
    ∷ gps_parse_thread nmea
    ∷ gps_analyze_thread
    ∷ []

-- The constructor of `NavTranslation`, in the MOOS gateway's process.
unfoldable pub nav_translation :
    (GpsPosition → Option GpsPosition) → List (Subscription Mail Effect)
unfolding on_gps_data
nav_translation carry =
    record { layer = interprocess; group = codes "gps_data"; callback = on_gps_data carry } ∷ []

abbrev pub publications : List Effect → List (Publication Mail)
publications [] = []
publications (publish p ∷ es) = p ∷ publications es
publications (_ ∷ es) = publications es

abbrev pub ends : List Effect → Bool
ends [] = false
ends (throws ∷ es) = true
ends (_ ∷ es) = ends es

-- What happens to the driver: a line arrives at the serial port, or a controller is run.
pub data Event : Type 0 where
  line : Text → Event
  controller : Bool → Event

abbrev pub commands_of : List ControllerEffect → List (Publication Mail)
commands_of [] = []
commands_of (publish_command b ∷ es) = gps_control b ∷ commands_of es
commands_of (quit ∷ es) = commands_of es

unfoldable pub obey : (tm : ThreadManager) → List Effect → tm.Threads → tm.Threads
obey tm [] t = t
obey tm (command b ∷ es) t = obey tm es (incoming_command tm b t)
obey tm (_ ∷ es) t = obey tm es t

-- The serial thread hands in a line if it runs.
unfoldable pub source : (tm : ThreadManager) → Event → tm.Threads → List (Publication Mail)
source tm (line l) t = if tm.runs_serial t then gps_raw_in l ∷ [] else []
source tm (controller b) t = commands_of (gps_controller b)

module _ (tr : Transporter) (carry : GpsPosition → Option GpsPosition)
    (nmea : Text → Option Sentence) where
  -- What a publication sets off in the driver and in the gateway. A position that the parse thread
  -- publishes is the last link, so a fuel of two is enough (`spread-raw`).
  abbrev pub all_effects : ℕ → Publication Mail → List Effect
  all_effects =
      spread tr (driver_subscriptions nmea ++ nav_translation carry) publications (λ p. [])

  unfoldable pub run : (tm : ThreadManager) → List Event → tm.Threads → List Effect
  run tm [] t = []
  run tm (e ∷ es) t =
      let out = each (all_effects 2) (source tm e t) in
      let rest = run tm es (obey tm out t) in out ++ (if ends out then [] else rest)
