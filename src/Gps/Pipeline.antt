-- ===== src/Gps/Pipeline.antt =====
-- What becomes of the lines: the driver's threads, the controllers and the MOOS gateway together.
use goby3_examples.Base.{Bool, Option, List, [], ◌∷◌, map, if◌then◌else◌}
use goby3_examples.Base.Text.{Text}
use goby3_examples.Gps.{Double, GpsPosition, Sentence, Parsed, published, uncaught, parse_line}
use goby3_examples.Gps.Threads.{
  Effect, publish, log_position, notify, throws, gps_data, notices, Event, line, controller,
}

-- What GPSAnalyzeThread logs, and what the gateway notifies MOOS of.
abbrev pub logged : List Effect → List GpsPosition
logged [] = []
logged (log_position p ∷ es) = p ∷ logged es
logged (_ ∷ es) = logged es

abbrev pub notified : List Effect → List (Text × Double)
notified [] = []
notified (notify n ∷ es) = n ∷ notified es
notified (_ ∷ es) = notified es

-- The positions of the lines that come while the port is read, up to one that throws.
abbrev pub then_rest : Parsed → List GpsPosition → List GpsPosition
then_rest (published p) rest = p ∷ rest
then_rest uncaught rest = []
then_rest _ rest = rest

abbrev pub positions : (Text → Option Sentence) → List Event → Bool → List GpsPosition
positions nmea [] reads = []
positions nmea (controller b ∷ es) reads = positions nmea es b
positions nmea (line l ∷ es) reads =
    let rest = positions nmea es reads in if reads then then_rest (parse_line nmea l) rest else rest

-- What a parsed line comes to once all callbacks have run.
abbrev line_effects : (GpsPosition → Option GpsPosition) → Parsed → List Effect
line_effects carry (published p) =
    publish (gps_data p) ∷ log_position p ∷ map notify (notices (carry p))
line_effects carry uncaught = throws ∷ []
line_effects carry _ = []
