-- ===== src/Trail.antt =====
-- src/intervehicle/trail: the report that a vehicle sends (trail.h), and the three managers that
-- send, relay and show it (auv_manager, usv_manager, topside_manager).
--
-- A quantity is an integer number of a fixed small unit: headings in 1 / 2 ^ 20 of a degree, times,
-- lengths and speeds in millionths, which a `double` holds up to its rounding. Goby's
-- geodesy and the simulation's clock are the record `World`. Publishing is an effect in a list;
-- Link is the link between the vehicles, which rounds what it carries as nav.proto says. What Goby's link does with a subscription's buffer settings is not modelled.
pub mod AuvManager
pub mod UsvManager
pub mod TopsideManager
pub mod Heading
pub mod Names
pub mod Relay
pub mod Link
pub mod Links
pub mod Contact
pub mod Helm
pub mod Fleet
use goby3_examples.Base.{ℕ, zero, suc, ◌+◌, ◌<◌, ◌^◌, Bool, true, false, List, [], ◌∷◌, ◌++◌, map}
use goby3_examples.Base.Int.{ℤ, pos, ◌+ℤ◌, ◌-ℤ◌, neg_ℤ, pos_part, neg_part, ltb_ℤ}
use goby3_examples.Base.Text.{Text, codes, to_string_ℤ}

-- `frontseat::protobuf::VehicleType`: the values that trail.h names, and all others.
pub data VehicleType : Type 0 where
  auv glider usv usv_powered usv_sailing other : VehicleType

-- `NavigationReport::VehicleClass`.
pub data VehicleClass : Type 0 where
  auv_class usv_class other_class : VehicleClass

pub data Group : Type 0 where
  usv_nav auv_nav : Group

-- `NavigationReport` of nav.proto.
pub record NavigationReport : Type 0 where
  pub vehicle : ℤ
  pub time : ℤ
  pub x : ℤ
  pub y : ℤ
  pub z : ℤ
  pub speed_over_ground : ℤ
  pub heading : ℤ
  pub type : VehicleClass

-- Goby's `NodeStatus`, with the fields that trail.h reads or sets.
pub record NodeStatus : Type 0 where
  pub name : Text
  pub time : ℤ
  pub type : VehicleType
  pub lat : ℤ
  pub lon : ℤ
  pub depth : ℤ
  pub x : ℤ
  pub y : ℤ
  pub z : ℤ
  pub heading : ℤ
  pub over_ground : ℤ

-- `UTMGeodesy::convert` both ways, and the clock's `warp` and `unwarp`.
pub record World : Type 0 where
  pub to_xy : ℤ × ℤ → ℤ × ℤ
  pub to_latlon : ℤ × ℤ → ℤ × ℤ
  pub warp : ℤ → ℤ
  pub unwarp : ℤ → ℤ

abbrev pub usv_vehicle_id : ℤ
usv_vehicle_id = pos 1

abbrev pub first_auv_vehicle_id : ℤ
first_auv_vehicle_id = pos 2

pub class_name : VehicleClass → ℤ → Text
class_name usv_class vehicle = codes "usv"
class_name auv_class vehicle = codes "auv" ++ to_string_ℤ (vehicle -ℤ first_auv_vehicle_id)
class_name other_class vehicle = codes "vehicle" ++ to_string_ℤ vehicle

unfoldable pub vehicle_name : NavigationReport → Text
unfolding class_name
vehicle_name nav = class_name nav.type nav.vehicle

abbrev pub group_class : Group → VehicleClass
group_class usv_nav = usv_class
group_class auv_nav = auv_class

-- What `nav_publisher` does to a report that is published on a group.
unfoldable pub nav_publisher : Group → NavigationReport → NavigationReport
nav_publisher g nav = record nav { type = group_class g }

abbrev pub class_group : VehicleClass → Group
class_group usv_class = usv_nav
class_group _ = auv_nav

-- The group that `nav_subscriber` reads off a report.
unfoldable pub nav_subscriber : NavigationReport → Group
nav_subscriber nav = class_group nav.type

-- The switch of `to_dccl`.
pub class_of : VehicleType → VehicleClass
class_of auv = auv_class
class_of glider = auv_class
class_of usv = usv_class
class_of usv_powered = usv_class
class_of usv_sailing = usv_class
class_of other = other_class

-- The switch of `to_node_status`.
pub type_of : VehicleClass → VehicleType
type_of auv_class = auv
type_of usv_class = usv
type_of other_class = other

-- A degree of heading is 2 ^ 20 units. A `double` holds such a heading exactly if it is below 2 ^ 53
-- units, and the loops' sums and differences too; other headings are outside this model.
abbrev pub degree : ℕ
degree = 1048576

abbrev pub IsExact : ℤ → Type 0
IsExact h = pos_part h + neg_part h < 2 ^ 53

abbrev pub revolution : ℕ
revolution = 377487360

-- `while (heading >= revolution) heading -= revolution`.
pub reduce : ℕ → ℤ → ℤ
reduce zero h = h
reduce (suc fuel) h = elim (ltb_ℤ h (pos revolution)) [
  | true ↦ h
  | false ↦ reduce fuel (h -ℤ pos revolution)
]

-- `while (heading < 0) heading += revolution`.
pub raise : ℕ → ℤ → ℤ
raise zero h = h
raise (suc fuel) h = elim (ltb_ℤ h (pos 0)) [ true ↦ raise fuel (h +ℤ pos revolution) | false ↦ h ]

-- The two loops. Each round moves the heading by a revolution, so the heading's own size is fuel
-- enough (`normalize-mod`).
unfoldable pub normalize : ℤ → ℤ
unfolding reduce raise
normalize h = let low = reduce (suc (pos_part h)) h in raise (suc (neg_part low)) low

module _ (world : World) where
  unfoldable pub to_dccl : NodeStatus → ℤ → NavigationReport
  unfolding class_of
  to_dccl status vehicle =
      let (x, y) = world.to_xy (status.lat, status.lon) in
      record {
        vehicle = vehicle;
        time = world.unwarp status.time;
        x = x;
        y = y;
        z = neg_ℤ status.depth;
        speed_over_ground = status.over_ground;
        heading = normalize status.heading;
        type = class_of status.type;
      }

  unfoldable pub to_node_status : NavigationReport → NodeStatus
  unfolding type_of
  to_node_status nav =
      let (lat, lon) = world.to_latlon (nav.x, nav.y) in
      record {
        name = vehicle_name nav;
        time = world.warp nav.time;
        type = type_of nav.type;
        lat = lat;
        lon = lon;
        depth = neg_ℤ nav.z;
        x = nav.x;
        y = nav.y;
        z = nav.z;
        heading = nav.heading;
        over_ground = nav.speed_over_ground;
      }

-- What a manager publishes: on the intervehicle layer with its group, or on the interprocess one.
pub data Published : Type 0 where
  intervehicle : Group → NavigationReport → Published
  interprocess_nav : Group → NavigationReport → Published
  interprocess_status : NodeStatus → Published

-- `intervehicle().publish<group>(nav, nav_publisher())`.
unfoldable pub publish_nav : Group → NavigationReport → Published
unfolding nav_publisher
publish_nav g nav = intervehicle g (nav_publisher g nav)

-- A subscription on the intervehicle layer.
pub record Subscription : Type 0 where
  pub group : Group
  pub publisher_id : ℤ
  pub broadcast : Bool
  pub ack_required : Bool
  pub max_queue : ℕ
  pub newest_first : Bool
