-- ===== src/Examples/Trail.antt =====
-- An AUV and the USV that it trails.
use goby3_examples.Base.{arith, ℕ, ◌<◌, ◌≡◌}
use goby3_examples.Base.Int.{pos, negsuc}
use goby3_examples.Base.Text.{Text, codes}
use goby3_examples.Trail.{NodeStatus, auv, revolution, normalize, to_dccl}
use goby3_examples.Trail.AuvManager
use goby3_examples.Trail.UsvManager
use goby3_examples.Trail.Heading.{remainder, normalize-mod, to_dccl-heading}
use goby3_examples.Examples.Fleet.{flat}
use goby3_examples.Examples.Fleet

-- A status with a heading of 359.5 degrees.
abbrev status : NodeStatus
status = record {
  name = codes "AUV_2";
  time = pos 1000;
  type = auv;
  lat = pos 41;
  lon = negsuc 69;
  depth = pos 25;
  x = pos 0;
  y = pos 0;
  z = pos 0;
  heading = pos 376963072;
  over_ground = pos 2;
}

normalize-mod_example : normalize (negsuc 0) ≡ pos 377487359
normalize-mod_example = normalize-mod (negsuc 0) (omega arith)

to_dccl-heading_example :
    (n : ℕ) × ((to_dccl flat status (pos 4)).heading ≡ pos n)
    × (n < revolution)
    × (remainder (pos n) ≡ remainder status.heading)
    × (normalize (pos n) ≡ pos n)
to_dccl-heading_example = to_dccl-heading flat status (pos 4) (omega arith)
