-- ===== src/Trail/Link.antt =====
-- src/intervehicle/trail/nav.proto: what becomes of a report between two vehicles.
--
-- DCCL is the record `Link`: the report that a receiver decodes of one that is sent, if it could be
-- encoded, and the times that the codec `dccl.time2` can tell, within half a day of the clock.
-- `LinkLaws` is what DCCL documents of reports within the bounds of nav.proto; it says nothing of
-- other reports, but for the type, whose values are all encodable.
use goby3_examples.Base.{ℕ, ◌≡◌, Bool, true, Option, some}
use goby3_examples.Base.Int.{ℤ, pos, negsuc, ◌+ℤ◌, ◌*ℤ◌, ◌≤ℤ◌}
use goby3_examples.Trail.{NavigationReport, degree}

pub record Link : Type 0 where
  pub carry : NavigationReport → Option NavigationReport
  pub recent : ℤ → Bool

abbrev Within : ℤ → ℤ → ℤ → Type 0
Within low high v = (low ≤ℤ v) × (v ≤ℤ high)

-- The bounds of nav.proto, in millionths and in the headings' own unit.
abbrev pub ReportFits : Link → NavigationReport → Type 0
ReportFits l n =
    Within (pos 1) (pos 128) n.vehicle
    × (l.recent n.time ≡ true)
    × Within (negsuc 9999999999) (pos 10000000000) n.x
    × Within (negsuc 9999999999) (pos 10000000000) n.y
    × Within (negsuc 5999999999) (pos 0) n.z
    × Within (pos 0) (pos 5000000) n.speed_over_ground
    × Within (pos 0) (pos 359 *ℤ degree) n.heading

-- The units of the fields' precisions.
abbrev pub rounded : (ℕ → ℤ → ℤ) → NavigationReport → NavigationReport
rounded round n = record n {
  time = round 1000000 n.time;
  x = round 100000 n.x;
  y = round 100000 n.y;
  z = round 1000000 n.z;
  speed_over_ground = round 100000 n.speed_over_ground;
  heading = round degree n.heading;
}

-- Two numbers that differ by at most half of a unit.
abbrev pub Near : ℕ → ℤ → ℤ → Type 0
Near unit a b = (a *ℤ 2 ≤ℤ b *ℤ 2 +ℤ pos unit) × (b *ℤ 2 ≤ℤ a *ℤ 2 +ℤ pos unit)

-- What was decoded is a message that DCCL encodes, and decodes to itself.
pub record LinkLaws (l : Link) : Type 0 where
  pub round : ℕ → ℤ → ℤ
  pub round_near : (unit : ℕ) (v : ℤ) → Near unit (round unit v) v
  pub takes : (n : NavigationReport) → ReportFits l n → l.carry n ≡ some (rounded round n)
  pub takes_again :
      (n : NavigationReport) → ReportFits l n → l.carry (rounded round n) ≡ some (rounded round n)
  pub keeps_type : (n m : NavigationReport) → l.carry n ≡ some m → m.type ≡ n.type
