-- ===== src/Trail/Names.antt =====
-- The names that `vehicle_name` gives.
use goby3_examples.Base.{◌≡◌, refl, ◌≢◌, ◌∙◌, ap, drop, ◌≤◌, zero, suc, arith}
use goby3_examples.Base.Int.{ℤ, pos, negsuc, ◌-ℤ◌, -ℤ_cancel, pos-sub}
use goby3_examples.Base.Text.{stoi, to_string_ℤ, IsInt, stoi-to_string}
use goby3_examples.Trail.{
  VehicleClass, auv_class, usv_class, other_class, NavigationReport, class_name, vehicle_name,
  first_auv_vehicle_id,
}

to_string_ℤ-inj : (a b : ℤ) → IsInt a → IsInt b → to_string_ℤ a ≡ to_string_ℤ b → a ≡ b
to_string_ℤ-inj a b ha hb h = cc (stoi-to_string a ha, stoi-to_string b hb, ap stoi h)

-- The vehicle ids that nav.proto allows.
abbrev pub IsVehicle : ℤ → Type 0
IsVehicle (pos n) = (1 ≤ n) × (n ≤ 128)
IsVehicle (negsuc n) = ⊥

IsVehicle-IsInt : (z : ℤ) → IsVehicle z → IsInt z × IsInt (z -ℤ first_auv_vehicle_id)
IsVehicle-IsInt (pos zero) h = absurd (omega arith)
IsVehicle-IsInt (pos (suc zero)) h = (omega arith, unfold ◌-ℤ◌ in omega arith)
IsVehicle-IsInt (pos (suc (suc n))) h =
    (omega arith, rw (pos-sub (suc (suc n)) 2 (omega arith)) (omega arith))
IsVehicle-IsInt (negsuc n) h = absurd h

class_name-class : (c d : VehicleClass) (a b : ℤ) → class_name c a ≡ class_name d b → c ≡ d
unfolding class_name
class_name-class usv_class usv_class a b h = refl
class_name-class auv_class auv_class a b h = refl
class_name-class other_class other_class a b h = refl
class_name-class _ _ a b h = ground arith

vehicle_name-type : (m n : NavigationReport) → vehicle_name m ≡ vehicle_name n → m.type ≡ n.type
unfolding vehicle_name
vehicle_name-type m n h = class_name-class m.type n.type m.vehicle n.vehicle h

class_name-vehicle :
    (c : VehicleClass) (a b : ℤ)
    → IsVehicle a
    → IsVehicle b
    → c ≢ usv_class
    → class_name c a ≡ class_name c b
    → a ≡ b
unfolding class_name
class_name-vehicle usv_class a b ha hb n h = absurd (n refl)
class_name-vehicle auv_class a b ha hb n h =
    -ℤ_cancel a b first_auv_vehicle_id
      (to_string_ℤ-inj _ _ (IsVehicle-IsInt a ha).1 (IsVehicle-IsInt b hb).1 (ap (drop 3) h))
class_name-vehicle other_class a b ha hb n h =
    to_string_ℤ-inj a b (IsVehicle-IsInt a ha).0 (IsVehicle-IsInt b hb).0 (ap (drop 7) h)

-- Two reports with one name are of one class, and unless that is the USV's they are of one vehicle,
-- for the vehicle ids that nav.proto allows.
pub vehicle_name-vehicle :
    (m n : NavigationReport)
    → IsVehicle m.vehicle
    → IsVehicle n.vehicle
    → m.type ≢ usv_class
    → vehicle_name m ≡ vehicle_name n
    → (m.type ≡ n.type) × (m.vehicle ≡ n.vehicle)
unfolding vehicle_name
vehicle_name-vehicle m n hm hn not_usv h =
    let same = vehicle_name-type m n h in
    (same, class_name-vehicle m.type m.vehicle n.vehicle hm hn not_usv (h ∙ rw same))
