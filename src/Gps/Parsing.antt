-- ===== src/Gps/Parsing.antt =====
-- Which lines `parse_line` publishes, and what.
use goby3_examples.Base.{ℕ, ◌+◌, ◌*◌, ◌<◌, ◌≡◌, refl, Option, some, [], ◌∷◌}
use goby3_examples.Base.Int.{pos}
use goby3_examples.Base.Text.{Text, codes, text_eq_refl}
use goby3_examples.Gps.{
  Double, number, GpsPosition, Sentence, published, parse_line, MoosMessage, moos_to_goby,
  goby_to_moos,
}
use goby3_examples.Gps.Conversion.{
  hhmmss, dddmm, Hemisphere, letter, toward, nmea_time_to_seconds-hhmmss, nmea_geo_to_decimal-dddmm,
}

-- The fields of a fix, as a sentence spells them.
pub record Fix : Type 0 where
  pub hours : ℕ
  pub minutes : ℕ
  pub seconds : ℕ  -- ten-thousandths
  pub latitude_degrees : ℕ
  pub latitude_minutes : ℕ  -- ten-thousandths
  pub latitude_side : Hemisphere
  pub longitude_degrees : ℕ
  pub longitude_minutes : ℕ  -- ten-thousandths
  pub longitude_side : Hemisphere

pub record IsFix (f : Fix) : Type 0 where
  pub minutes_in : f.minutes < 60
  pub seconds_in : f.seconds < 600000
  pub latitude_in : f.latitude_minutes < 600000
  pub longitude_in : f.longitude_minutes < 600000

-- The sentence carries the fix in its fields.
pub record Spells (s : Sentence) (f : Fix) : Type 0 where
  pub is_gga : s.sentence_id ≡ codes "GGA"
  pub utc : s.as_double 1 ≡ some (number (hhmmss f.hours f.minutes f.seconds))
  pub lat : s.as_double 2 ≡ some (number (dddmm f.latitude_degrees f.latitude_minutes))
  pub lat_hemi : s.as_char 3 ≡ some (letter f.latitude_side)
  pub lon : s.as_double 4 ≡ some (number (dddmm f.longitude_degrees f.longitude_minutes))
  pub lon_hemi : s.as_char 5 ≡ some (letter f.longitude_side)

-- The position that a fix means.
abbrev pub position : Fix → GpsPosition
position f = record {
  time = number (pos (f.hours * 36000000 + f.minutes * 600000 + f.seconds));
  latitude = number (toward f.latitude_side (f.latitude_degrees * 600000 + f.latitude_minutes));
  longitude = number (toward f.longitude_side (f.longitude_degrees * 600000 + f.longitude_minutes));
}

-- A line with a GGA sentence that spells a fix, its minutes and seconds in range, publishes the
-- position that the fix means: its seconds since midnight, and its two angles with the signs of
-- their hemispheres.
pub parse_line-published :
    (nmea : Text → Option Sentence) (line : Text) (s : Sentence) (f : Fix)
    → IsFix f
    → nmea line ≡ some s
    → Spells s f
    → parse_line nmea line ≡ published (position f)
unfolding parse_line
parse_line-published nmea line s f ok h sp = rw h (
    rw (sp.is_gga, text_eq_refl (codes "GGA"))
      (rw (sp.utc, sp.lat, sp.lat_hemi, sp.lon, sp.lon_hemi)
        (rw (
          nmea_time_to_seconds-hhmmss f.hours f.minutes f.seconds ok.minutes_in ok.seconds_in,
          nmea_geo_to_decimal-dddmm _ _ f.latitude_side ok.latitude_in,
          nmea_geo_to_decimal-dddmm _ _ f.longitude_side ok.longitude_in,
        ))))

-- A latitude from MOOS, with a longitude in the buffer, is published, and the plugin passes both
-- back to MOOS unchanged.
pub moos_to_goby-goby_to_moos :
    (buffer : Text → Option Double) (m : MoosMessage) (longitude : Double)
    → m.key ≡ codes "TEST_LATITUDE"
    → buffer (codes "TEST_LONGITUDE") ≡ some longitude
    → (p : GpsPosition) × (moos_to_goby buffer m ≡ some p)
      × (goby_to_moos p ≡ (codes "GPS_LATITUDE", m.value) ∷ (codes "GPS_LONGITUDE", longitude) ∷ [])
unfolding moos_to_goby goby_to_moos
moos_to_goby-goby_to_moos buffer m longitude k b = (
  record { time = m.time; latitude = m.value; longitude = longitude },
  rw (k, text_eq_refl (codes "TEST_LATITUDE")) (rw b),
  refl,
)
