-- ===== src/Trail/Relay.antt =====
-- A vehicle's status, as it is received by another one and shown topside.
use goby3_examples.Base.{◌≡◌, refl, ◌++◌}
use goby3_examples.Base.Int.{ℤ, ◌-ℤ◌, neg_ℤ}
use goby3_examples.Base.Text.{Text, codes, to_string_ℤ}
use goby3_examples.Trail.{
  Group, usv_nav, auv_nav, auv, usv, VehicleType, NavigationReport, NodeStatus, World,
  nav_publisher, normalize, degree, to_dccl, to_node_status, vehicle_name, first_auv_vehicle_id,
  IsExact,
}
use goby3_examples.Trail.Link.{Link, LinkLaws, ReportFits, rounded, Near}

-- The report that a manager sends of a status on a group.
abbrev pub sent_as : World → Group → NodeStatus → ℤ → NavigationReport
sent_as w g s id = nav_publisher g (to_dccl w s id)

abbrev pub CanSend : Link → World → Group → NodeStatus → ℤ → Type 0
CanSend l w g s id = IsExact s.heading × ReportFits l (sent_as w g s id)

abbrev pub auv_name : ℤ → Text
auv_name id = codes "auv" ++ to_string_ℤ (id -ℤ first_auv_vehicle_id)

abbrev pub usv_name : Text
usv_name = codes "usv"

-- A status that shows a vehicle's own one, to the precisions of nav.proto.
pub record IsShown (w : World) (name : Text) (type : VehicleType) (own status : NodeStatus)
    : Type 0 where
  pub has_name : status.name ≡ name
  pub has_type : status.type ≡ type
  pub at_time : (t : ℤ) × Near 1000000 t (w.unwarp own.time) × (status.time ≡ w.warp t)
  pub at_x : Near 100000 status.x (w.to_xy (own.lat, own.lon)).0
  pub at_y : Near 100000 status.y (w.to_xy (own.lat, own.lon)).1
  pub fix : (status.lat, status.lon) ≡ w.to_latlon (status.x, status.y)
  pub at_z : Near 1000000 status.z (neg_ℤ own.depth)
  pub at_depth : status.depth ≡ neg_ℤ status.z
  pub has_speed : Near 100000 status.over_ground own.over_ground
  pub has_heading : Near degree status.heading (normalize own.heading)

-- A report that another one has become on its way.
pub record IsRounded (n m : NavigationReport) : Type 0 where
  pub vehicle : m.vehicle ≡ n.vehicle
  pub type : m.type ≡ n.type
  pub time : Near 1000000 m.time n.time
  pub x : Near 100000 m.x n.x
  pub y : Near 100000 m.y n.y
  pub z : Near 1000000 m.z n.z
  pub speed : Near 100000 m.speed_over_ground n.speed_over_ground
  pub heading : Near degree m.heading n.heading

module _ (w : World) (l : Link) (laws : LinkLaws l) where
  pub rounded-IsRounded : (n : NavigationReport) → IsRounded n (rounded laws.round n)
  rounded-IsRounded n = record {
    vehicle = refl;
    type = refl;
    time = laws.round_near 1000000 n.time;
    x = laws.round_near 100000 n.x;
    y = laws.round_near 100000 n.y;
    z = laws.round_near 1000000 n.z;
    speed = laws.round_near 100000 n.speed_over_ground;
    heading = laws.round_near degree n.heading;
  }

  pub auv_report-IsShown :
      (s : NodeStatus) (id : ℤ)
      → IsShown w
          (auv_name id)
          auv
          s
          (to_node_status w (rounded laws.round (sent_as w auv_nav s id)))
  unfolding to_node_status vehicle_name to_dccl nav_publisher
  auv_report-IsShown s id = record {
    has_name = refl;
    has_type = refl;
    at_time = (_, laws.round_near 1000000 (w.unwarp s.time), refl);
    at_x = laws.round_near 100000 _;
    at_y = laws.round_near 100000 _;
    fix = refl;
    at_z = laws.round_near 1000000 _;
    at_depth = refl;
    has_speed = laws.round_near 100000 _;
    has_heading = laws.round_near degree _;
  }

  pub usv_report-IsShown :
      (s : NodeStatus) (id : ℤ)
      → IsShown w usv_name usv s (to_node_status w (rounded laws.round (sent_as w usv_nav s id)))
  unfolding to_node_status vehicle_name to_dccl nav_publisher
  usv_report-IsShown s id = record {
    has_name = refl;
    has_type = refl;
    at_time = (_, laws.round_near 1000000 (w.unwarp s.time), refl);
    at_x = laws.round_near 100000 _;
    at_y = laws.round_near 100000 _;
    fix = refl;
    at_z = laws.round_near 1000000 _;
    at_depth = refl;
    has_speed = laws.round_near 100000 _;
    has_heading = laws.round_near degree _;
  }
