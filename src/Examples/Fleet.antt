-- ===== src/Examples/Fleet.antt =====
-- A fleet of two AUVs behind the modems 3 and 4, and a USV behind modem 1.
use goby3_examples.Base.{ℕ, some, true, arith, All, refl, [], ◌∷◌, Among, inl}
use goby3_examples.Base.Int.{ℤ, pos, negsuc, ◌+ℤ◌, ◌*ℤ◌, ◌≤ℤ◌, neg_ℤ}
use goby3_examples.Base.Text.{codes}
use goby3_examples.Trail.{
  Group, usv_nav, auv_nav, to_dccl, NavigationReport, NodeStatus, World, auv, usv, nav_publisher,
  nav_subscriber, publish_nav,
}
use goby3_examples.Trail.AuvManager
use goby3_examples.Trail.UsvManager
use goby3_examples.Trail.TopsideManager
use goby3_examples.Trail.Link.{Link, LinkLaws}
use goby3_examples.Trail.Heading.{normalize-mod}
use goby3_examples.Trail.Relay.{CanSend, IsShown, IsRounded, sent_as, auv_name, usv_name}
use goby3_examples.Trail.Fleet.{
  Auv, Config, State, auv_reports, usv_reports, auv_hands_on, topside_shows, usv_status, to_auv,
  to_topside, Steps, stay, later, start,
}
use goby3_examples.Trail.Fleet.Origin.{IsOwn, AllSendable, reached_origin}
use goby3_examples.Trail.Fleet.Sound.{usv_report}
use goby3_examples.Trail.Fleet.Progress.{report_arrives}

abbrev pub flat : World
flat = record { to_xy = λ p. p; to_latlon = λ p. p; warp = λ t. t; unwarp = λ t. t }

-- A link that rounds nothing.
abbrev pub exact : Link
exact = record { carry = λ n. some n; recent = λ t. true }

pub same_or_more : (v : ℤ) (unit : ℕ) → v *ℤ 2 ≤ℤ v *ℤ 2 +ℤ pos unit
unfolding ◌+ℤ◌ ◌*ℤ◌
same_or_more (pos n) unit = ground arith
same_or_more (negsuc n) unit = ground arith

abbrev pub exact_laws : LinkLaws exact
exact_laws = record {
  round = λ unit v. v;
  round_near = λ unit v. (same_or_more v unit, same_or_more v unit);
  takes = λ n fits. refl;
  takes_again = λ n fits. refl;
  keeps_type = λ n m e. cc;
}

abbrev first_auv : Auv
first_auv = record { modem_id = pos 3; vehicle_id = pos 2 }

abbrev fleet : Config
fleet = record {
  auvs = first_auv ∷ record { modem_id = pos 4; vehicle_id = pos 3 } ∷ [];
  usv_modem_id = pos 1;
  usv_id = pos 1;
  auv_modem_ids = pos 3 ∷ pos 4 ∷ [];
}

abbrev pub status : NodeStatus
status = record {
  name = codes "AUV_0";
  time = pos 1000;
  type = auv;
  lat = pos 41;
  lon = negsuc 69;
  depth = pos 25;
  x = pos 0;
  y = pos 0;
  z = pos 0;
  heading = pos 90000000;
  over_ground = pos 2;
}

pub status-CanSend : (g : Group) → CanSend exact flat g status (pos 2)
unfolding to_dccl nav_publisher neg_ℤ ◌*ℤ◌
status-CanSend g = (omega arith, rw (normalize-mod (pos 90000000) (omega arith)) (ground arith))

pub usv-CanSend : CanSend exact flat usv_nav status (pos 1)
unfolding to_dccl nav_publisher neg_ℤ ◌*ℤ◌
usv-CanSend = (omega arith, rw (normalize-mod (pos 90000000) (omega arith)) (ground arith))

report_arrives_example :
    ((t : State) × Steps flat exact fleet (auv_reports flat exact fleet first_auv status start) t
      × (shown : NodeStatus) × Among shown t.shown
      × IsShown flat (auv_name (pos 2)) auv status shown)
    × ((t : State) × Steps flat exact fleet (usv_reports flat exact fleet status start) t
        × ((shown : NodeStatus) × Among shown t.shown × IsShown flat usv_name usv status shown)
        × (nav : NavigationReport) × Among nav t.helm
        × IsRounded (sent_as flat usv_nav status (pos 1)) nav)
report_arrives_example =
    report_arrives flat exact exact_laws fleet start first_auv status status
      (status-CanSend auv_nav) usv-CanSend (inl refl) (inl refl)

abbrev report : NavigationReport
report = sent_as flat usv_nav status (pos 1)

abbrev reported : State
reported = usv_reports flat exact fleet status start

abbrev after_report : State
after_report =
    topside_shows flat exact fleet report (auv_hands_on flat exact fleet first_auv report reported)

three_steps : Steps flat exact fleet start after_report
unfolding UsvManager.on_node_status AuvManager.on_usv_nav publish_nav nav_publisher nav_subscriber
    AuvManager.subscriptions TopsideManager.subscriptions TopsideManager.usv_subscription
three_steps =
    later
      (later (later stay (usv_status status))
        (to_auv first_auv (pos 1) report report (inl refl) (inl refl) refl (inl (refl, refl))))
      (to_topside (pos 1) report report (inl refl) refl (inl (refl, refl)))

all_sendable : AllSendable flat exact exact_laws fleet after_report
unfolding UsvManager.on_node_status AuvManager.on_usv_nav publish_nav TopsideManager.republish
all_sendable = (tt, (usv-CanSend, tt))

reached_origin_example :
    All (IsOwn flat exact exact_laws fleet after_report) after_report.shown
    × All
        (λ nav.
          (own : NodeStatus) × Among own after_report.usv_status
          × IsRounded (usv_report flat exact exact_laws.keeps_type fleet own) nav)
        after_report.helm
reached_origin_example =
    reached_origin flat exact exact_laws fleet after_report all_sendable three_steps
