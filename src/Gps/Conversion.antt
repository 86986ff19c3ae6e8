-- ===== src/Gps/Conversion.antt =====
-- The two conversions of NMEA numbers.
use goby3_examples.Base.{ℕ, ◌+◌, ◌-◌, ◌*◌, ◌/◌, ◌<◌, ◌≡◌, arith}
use goby3_examples.Base.Int.{ℤ, pos, ◌+ℤ◌, ◌-ℤ◌, ◌*ℤ◌, neg_ℤ, floor_div, pos-add, pos-mul, pos-sub}
use goby3_examples.Gps.{nmea_time_to_seconds, nmea_geo_to_decimal}

-- The number that spells h hours, m minutes and s ten-thousandths of a second as HHMMSS.SSSS.
abbrev pub hhmmss : ℕ → ℕ → ℕ → ℤ
hhmmss h m s = pos (h * 100000000 + m * 1000000 + s)

-- The number that spells d degrees and m ten-thousandths of a minute as DDDMM.MMMM.
abbrev pub dddmm : ℕ → ℕ → ℤ
dddmm d m = pos (d * 1000000 + m)

-- A time of day is read as its seconds since midnight.
pub nmea_time_to_seconds-hhmmss :
    (h m s : ℕ)
    → m < 60
    → s < 600000
    → nmea_time_to_seconds (hhmmss h m s) ≡ pos (h * 36000000 + m * 600000 + s)
unfolding nmea_time_to_seconds floor_div
nmea_time_to_seconds-hhmmss h m s hm hs =
    let hours : (h * 100000000 + m * 1000000 + s) / 100000000 ≡ h = omega arith in
    let rest : h * 100000000 + m * 1000000 + s - h * 100000000 ≡ m * 1000000 + s = omega arith in
    let minutes : (m * 1000000 + s) / 1000000 ≡ m = omega arith in
    let seconds : m * 1000000 + s - m * 1000000 ≡ s = omega arith in
    simp (
      hours,
      pos-mul,
      pos-sub (h * 100000000 + m * 1000000 + s) (h * 100000000) (omega arith),
      rest,
      minutes,
      pos-sub (m * 1000000 + s) (m * 1000000) (omega arith),
      seconds,
      pos-add,
    )

-- `deg_int + deg_frac`.
abbrev angle : ℤ → ℤ
angle g = let deg_int = floor_div g 1000000 in deg_int *ℤ 600000 +ℤ (g -ℤ deg_int *ℤ 1000000)

angle-eq : (d m : ℕ) → m < 600000 → angle (dddmm d m) ≡ pos (d * 600000 + m)
unfolding floor_div
angle-eq d m h =
    let degrees : (d * 1000000 + m) / 1000000 ≡ d = omega arith in
    let minutes : d * 1000000 + m - d * 1000000 ≡ m = omega arith in
    simp (degrees, pos-mul, pos-sub (d * 1000000 + m) (d * 1000000) (omega arith), minutes, pos-add)

pub data Hemisphere : Type 0 where
  north south east west : Hemisphere

abbrev pub letter : Hemisphere → ℕ
letter north = b'N'
letter south = b'S'
letter east = b'E'
letter west = b'W'

-- An angle north or east is positive, one south or west negative.
abbrev pub toward : Hemisphere → ℕ → ℤ
toward north n = pos n
toward south n = neg_ℤ (pos n)
toward east n = pos n
toward west n = neg_ℤ (pos n)

-- An angle is read as its degrees and minutes, with the sign of its hemisphere.
pub nmea_geo_to_decimal-dddmm :
    (d m : ℕ) (side : Hemisphere)
    → m < 600000
    → nmea_geo_to_decimal (dddmm d m) (letter side) ≡ toward side (d * 600000 + m)
unfolding nmea_geo_to_decimal
nmea_geo_to_decimal-dddmm d m north h = angle-eq d m h
nmea_geo_to_decimal-dddmm d m south h = rw (angle-eq d m h)
nmea_geo_to_decimal-dddmm d m east h = angle-eq d m h
nmea_geo_to_decimal-dddmm d m west h = rw (angle-eq d m h)
