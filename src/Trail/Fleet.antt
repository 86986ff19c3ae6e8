-- ===== src/Trail/Fleet.antt =====
-- The three managers together: AUVs, one USV and the topside, over a link that may lose reports,
-- hand them over more than once, and put them out of order.
--
-- A report on the air comes with the modem that sent it, and stays there. What DCCL makes of it, if
-- it can be encoded, is handed to a manager that has subscribed to its sender and to the group that
-- `nav_subscriber` reads off what is received.
pub mod Sound
pub mod Origin
pub mod Progress
use goby3_examples.Base.{◌≡◌, some, List, [], ◌∷◌, ◌++◌, Among}
use goby3_examples.Base.Int.{ℤ}
use goby3_examples.Trail.{
  NavigationReport, NodeStatus, World, Published, intervehicle, interprocess_nav,
  interprocess_status, nav_subscriber,
}
use goby3_examples.Trail.AuvManager
use goby3_examples.Trail.UsvManager
use goby3_examples.Trail.TopsideManager
use goby3_examples.Trail.Link.{Link}
use goby3_examples.Trail.Links.{Hears}

pub record Auv : Type 0 where
  pub modem_id : ℤ
  pub vehicle_id : ℤ

-- The managers' configurations. The USV relays the AUVs of its own list.
pub record Config : Type 0 where
  pub auvs : List Auv
  pub usv_modem_id : ℤ
  pub usv_id : ℤ
  pub auv_modem_ids : List ℤ

-- `auv_status` and `usv_status` record what the vehicles' front seats have told their managers,
-- `helm` what the AUVs' managers have handed on, and `shown` what the topside has published.
pub record State : Type 0 where
  pub air : List (ℤ × NavigationReport)
  pub auv_status : List (Auv × NodeStatus)
  pub usv_status : List NodeStatus
  pub helm : List NavigationReport
  pub shown : List NodeStatus

-- What a manager behind the given modem publishes.
abbrev pub apply : ℤ → Published → State → State
apply modem (intervehicle g nav) s = record s { air = s.air ++ (modem, nav) ∷ [] }
apply modem (interprocess_nav g nav) s = record s { helm = s.helm ++ nav ∷ [] }
apply modem (interprocess_status status) s = record s { shown = s.shown ++ status ∷ [] }

module _ (w : World) (l : Link) (c : Config) where
  abbrev pub auv_reports : Auv → NodeStatus → State → State
  auv_reports a status s =
      apply a.modem_id (AuvManager.on_node_status w a.vehicle_id status)
        (record s { auv_status = s.auv_status ++ (a, status) ∷ [] })

  abbrev pub usv_reports : NodeStatus → State → State
  usv_reports status s =
      apply c.usv_modem_id (UsvManager.on_node_status w c.usv_id status)
        (record s { usv_status = s.usv_status ++ status ∷ [] })

  abbrev pub usv_relays : NavigationReport → State → State
  usv_relays nav s = apply c.usv_modem_id (UsvManager.on_auv_nav nav) s

  abbrev pub auv_hands_on : Auv → NavigationReport → State → State
  auv_hands_on a nav s = apply a.modem_id (AuvManager.on_usv_nav nav) s

  -- The topside sends nothing, so its own modem does not matter.
  abbrev pub topside_shows : NavigationReport → State → State
  topside_shows nav s = apply c.usv_modem_id (TopsideManager.republish w nav) s

  pub data Step (s : State) : State → Type 0 where
    auv_status : (a : Auv) (status : NodeStatus) → Among a c.auvs → Step s (auv_reports a status s)
    usv_status : (status : NodeStatus) → Step s (usv_reports status s)
    to_usv :
        (from : ℤ) (nav heard : NavigationReport)
        → Among (from, nav) s.air
        → l.carry nav ≡ some heard
        → Hears (nav_subscriber heard) from (UsvManager.subscriptions c.auv_modem_ids)
        → Step s (usv_relays heard s)
    to_auv :
        (a : Auv) (from : ℤ) (nav heard : NavigationReport)
        → Among a c.auvs
        → Among (from, nav) s.air
        → l.carry nav ≡ some heard
        → Hears (nav_subscriber heard) from (AuvManager.subscriptions c.usv_modem_id)
        → Step s (auv_hands_on a heard s)
    to_topside :
        (from : ℤ) (nav heard : NavigationReport)
        → Among (from, nav) s.air
        → l.carry nav ≡ some heard
        → Hears (nav_subscriber heard) from (TopsideManager.subscriptions c.usv_modem_id)
        → Step s (topside_shows heard s)

  pub data Steps (s : State) : State → Type 0 where
    stay : Steps s s
    later : {t u : State} → Steps s t → Step t u → Steps s u

abbrev pub start : State
start = record { air = []; auv_status = []; usv_status = []; helm = []; shown = [] }
