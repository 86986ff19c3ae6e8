-- ===== src/Trail/Contact.antt =====
-- src/intervehicle/trail/moos_plugin/trail_moos_plugin.cpp: the USV's position as a MOOS contact.
--
-- How a stream prints a `double` is given, as a function of the number's units. MOOS takes a report
-- apart at its commas and equals signs.
use goby3_examples.Base.{
  ◌≡◌, refl, ◌∙◌, ap, List, [], ◌∷◌, ◌++◌, map, drop, All, All-append, append_assoc, arith,
}
use goby3_examples.Base.Int.{ℤ, ◌-ℤ◌, neg_ℤ}
use goby3_examples.Base.Text.{Text, codes, to_string_ℤ, to_string_ℤ-All}
use goby3_examples.Base.Split.{split, Without, split-word, split-last, joined, split-joined}
use goby3_examples.Trail.{
  VehicleClass, auv_class, usv_class, other_class, NavigationReport, World, vehicle_name,
  class_name, first_auv_vehicle_id, Published, interprocess_nav, usv_nav,
}

-- `NavigationReport::VehicleClass_Name`.
pub class_text : VehicleClass → Text
class_text auv_class = codes "AUV"
class_text usv_class = codes "USV"
class_text other_class = codes "OTHER"

-- The text that `post_node_report` posts.
unfoldable pub post_node_report : (ℤ → Text) → World → NavigationReport → Text
unfolding class_text
post_node_report show world nav =
    codes "NAME="
    ++ vehicle_name nav
    ++ codes ","
    ++ (codes "TYPE="
        ++ class_text nav.type
        ++ codes ","
        ++ (codes "TIME="
            ++ show (world.warp nav.time)
            ++ codes ","
            ++ (codes "X="
                ++ show nav.x
                ++ codes ","
                ++ (codes "Y="
                    ++ show nav.y
                    ++ codes ","
                    ++ (codes "DEPTH="
                        ++ show (neg_ℤ nav.z)
                        ++ codes ","
                        ++ (codes "HDG="
                            ++ show nav.heading
                            ++ codes ","
                            ++ (codes "SPD=" ++ show nav.speed_over_ground)))))))

-- The subscription that the constructor makes, and the variable that `post_node_report` notifies.
unfoldable pub contact_translation : (ℤ → Text) → World → Published → List (Text × Text)
unfolding post_node_report
contact_translation show world (interprocess_nav usv_nav nav) =
    (codes "NODE_REPORT", post_node_report show world nav) ∷ []
contact_translation show world _ = []

abbrev field : Text → Text → Text
field key value = key ++ b'=' ∷ value

split-field :
    (key value : Text)
    → Without b'=' key
    → Without b'=' value
    → split b'=' (field key value) ≡ key ∷ value ∷ []
split-field key value hk hv =
    split-word b'=' key value hk ∙ ap (λ r. key ∷ r) (split-last b'=' value hv)

-- A text that can stand as a value.
abbrev pub IsValue : Text → Type 0
IsValue v = Without b',' v × Without b'=' v

pub numeral-IsValue : (z : ℤ) → IsValue (to_string_ℤ z)
numeral-IsValue z =
    (to_string_ℤ-All _ refl (λ d. ground arith) z, to_string_ℤ-All _ refl (λ d. ground arith) z)

class_name-IsValue : (c : VehicleClass) (id : ℤ) → IsValue (class_name c id)
unfolding class_name
class_name-IsValue usv_class id = ((refl, (refl, (refl, tt))), (refl, (refl, (refl, tt))))
class_name-IsValue auv_class id =
    let number = numeral-IsValue (id -ℤ first_auv_vehicle_id) in
    ((refl, (refl, (refl, number.0))), (refl, (refl, (refl, number.1))))
class_name-IsValue other_class id =
    let number = numeral-IsValue id in
    (
      (refl, (refl, (refl, (refl, (refl, (refl, (refl, number.0))))))),
      (refl, (refl, (refl, (refl, (refl, (refl, (refl, number.1))))))),
    )

class_text-IsValue : (c : VehicleClass) → IsValue (class_text c)
unfolding class_text
class_text-IsValue auv_class = ((refl, (refl, (refl, tt))), (refl, (refl, (refl, tt))))
class_text-IsValue usv_class = ((refl, (refl, (refl, tt))), (refl, (refl, (refl, tt))))
class_text-IsValue other_class =
    ((refl, (refl, (refl, (refl, (refl, tt))))), (refl, (refl, (refl, (refl, (refl, tt))))))

-- The fields of a report: what MOOS reads behind each key.
abbrev pub fields : (ℤ → Text) → World → NavigationReport → List (Text × Text)
fields show world nav =
    (codes "NAME", vehicle_name nav)
    ∷ (codes "TYPE", class_text nav.type)
    ∷ (codes "TIME", show (world.warp nav.time))
    ∷ (codes "X", show nav.x)
    ∷ (codes "Y", show nav.y)
    ∷ (codes "DEPTH", show (neg_ℤ nav.z))
    ∷ (codes "HDG", show nav.heading)
    ∷ (codes "SPD", show nav.speed_over_ground)
    ∷ []

abbrev IsField : Text × Text → Type 0
IsField (key, value) = (Without b',' key × Without b'=' key) × IsValue value

field-Without : (f : Text × Text) → IsField f → Without b',' (field f.0 f.1)
field-Without (key, value) h = All-append _ key (b'=' ∷ value) h.0.0 (refl, h.1.0)

abbrev spelled : List (Text × Text) → List Text
spelled fs = map (λ f. field f.0 f.1) fs

spelled-Without : (fs : List (Text × Text)) → All IsField fs → All (Without b',') (spelled fs)
spelled-Without [] h = tt
spelled-Without (f ∷ fs) h = (field-Without f h.0, spelled-Without fs h.1)

split-spelled :
    (fs : List (Text × Text))
    → All IsField fs
    → map (split b'=') (spelled fs) ≡ map (λ f. f.0 ∷ f.1 ∷ []) fs
split-spelled [] h = refl
split-spelled ((key, value) ∷ fs) h =
    rw (split-field key value h.0.0.1 h.0.1.1, split-spelled fs h.1) refl

module _ (show : ℤ → Text) (plain : (n : ℤ) → IsValue (show n)) (world : World) where
  fields-IsField : (nav : NavigationReport) → All IsField (fields show world nav)
  unfolding vehicle_name
  fields-IsField nav = (
    ((ground arith), class_name-IsValue nav.type nav.vehicle),
    (
      ((ground arith), class_text-IsValue nav.type),
      (
        ((ground arith), plain (world.warp nav.time)),
        (
          ((ground arith), plain nav.x),
          (
            ((ground arith), plain nav.y),
            (
              ((ground arith), plain (neg_ℤ nav.z)),
              (
                ((ground arith), plain nav.heading),
                (((ground arith), plain nav.speed_over_ground), tt),
              ),
            ),
          ),
        ),
      ),
    ),
  )

  post_node_report-joined :
      (nav : NavigationReport)
      → post_node_report show world nav
        ≡ joined b','
            (field (codes "NAME") (vehicle_name nav))
            (spelled (drop 1 (fields show world nav)))
  unfolding post_node_report
  post_node_report-joined nav = simp append_assoc

  pub split-post_node_report :
      (nav : NavigationReport)
      → map (split b'=') (split b',' (post_node_report show world nav))
        ≡ map (λ f. f.0 ∷ f.1 ∷ []) (fields show world nav)
  split-post_node_report nav =
      let ok = fields-IsField nav in
      let texts = spelled-Without (fields show world nav) ok in
      rw (post_node_report-joined nav) (
        ap (map (split b'=')) (
          split-joined b',' (field (codes "NAME") (vehicle_name nav))
            (spelled (drop 1 (fields show world nav))) texts.0 texts.1)
        ∙ split-spelled (fields show world nav) ok)
