-- ===== src/Examples/Hold.antt =====
-- A bus whose state is whether it holds, and its queue; the hold is released in the second turn.
use goby3_examples.Base.{◌≡◌, refl, Bool, true, false, List, [], ◌∷◌, ◌++◌}
use goby3_examples.Base.Text.{codes}
use goby3_examples.Hold.{on, Mail, Bus, BusLaws, received_initial_state}
use goby3_examples.Hold.Once.{Turn, round, released, session, session-once}
use goby3_examples.Examples.PubSub.{transporter, transporter_laws}

abbrev Queue : Type 0
Queue = Bool × List Mail

abbrev post : Mail → Queue → Queue × List Mail
post p (true, q) = ((true, q ++ p ∷ []), [])
post p (false, q) = ((false, q), p ∷ [])

abbrev let_go : Queue → Queue × List Mail
let_go (_, q) = ((false, []), q)

abbrev bus : Bus
bus = record { Held = Queue; hold_state = λ h. h.0; publish = post; release = let_go }

post_held :
    (p : Mail) (h : Queue)
    → h.0 ≡ true
    → ((post p h).0.0 ≡ true) × ((post p h).0.1 ≡ h.1 ++ p ∷ []) × ((post p h).1 ≡ [])
post_held p (true, q) e = (refl, refl, refl)
post_held p (false, q) e = absurd (cc)

let_go_all : (h : Queue) → ((let_go h).0.0 ≡ false) × ((let_go h).0.1 ≡ []) × ((let_go h).1 ≡ h.1)
let_go_all (b, q) = (refl, refl, refl)

bus_laws : BusLaws bus
bus_laws = record { queued = λ h. h.1; holds = post_held; releases = let_go_all }

abbrev turns : List Turn
turns = round ∷ released ∷ round ∷ []

session-once_example :
    session transporter bus turns (true, [])
    ≡ (codes "Hold is on" ∷ codes "Hold is off" ∷ [], received_initial_state on ∷ [])
unfolding bus_laws
session-once_example =
    session-once transporter bus transporter_laws bus_laws turns (true, []) refl refl
