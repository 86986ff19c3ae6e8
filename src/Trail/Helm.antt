-- ===== src/Trail/Helm.antt =====
-- The USV's position on its way to an AUV's helm, over the MOOS plugin.
use goby3_examples.Base.{List, [], ◌∷◌}
use goby3_examples.Base.Int.{ℤ}
use goby3_examples.Base.Text.{Text, codes}
use goby3_examples.Trail.{NodeStatus}
use goby3_examples.Trail.AuvManager
use goby3_examples.Trail.UsvManager
use goby3_examples.Trail.Link.{Link}

-- The keys of a contact with their values, for a status.
abbrev pub contact : (ℤ → Text) → NodeStatus → List (List Text)
contact show seen =
    (codes "NAME" ∷ seen.name ∷ [])
    ∷ (codes "TYPE" ∷ codes "USV" ∷ [])
    ∷ (codes "TIME" ∷ show seen.time ∷ [])
    ∷ (codes "X" ∷ show seen.x ∷ [])
    ∷ (codes "Y" ∷ show seen.y ∷ [])
    ∷ (codes "DEPTH" ∷ show seen.depth ∷ [])
    ∷ (codes "HDG" ∷ show seen.heading ∷ [])
    ∷ (codes "SPD" ∷ show seen.over_ground ∷ [])
    ∷ []
