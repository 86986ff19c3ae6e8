-- ===== src/Trail/Fleet/Progress.antt =====
-- The ways of the vehicles' reports.
use goby3_examples.Base.{refl, Among, Among-last}
use goby3_examples.Trail.{
  usv_nav, auv_nav, auv, usv, NavigationReport, NodeStatus, World, nav_publisher, nav_subscriber,
  publish_nav, to_node_status,
}
use goby3_examples.Trail.AuvManager
use goby3_examples.Trail.UsvManager
use goby3_examples.Trail.TopsideManager
use goby3_examples.Trail.Link.{Link, LinkLaws, rounded}
use goby3_examples.Trail.Relay.{
  CanSend, IsShown, IsRounded, sent_as, auv_name, usv_name, auv_report-IsShown, usv_report-IsShown,
  rounded-IsRounded,
}
use goby3_examples.Trail.Links.{subscriptions-Hears}
use goby3_examples.Trail.Fleet.{
  Auv, Config, State, auv_reports, usv_reports, usv_relays, auv_hands_on, topside_shows, to_usv,
  to_auv, to_topside, Steps, stay, later,
}

module _ (w : World) (l : Link) (laws : LinkLaws l) (c : Config) where
  auv_progress :
      (s : State) (a : Auv) (status : NodeStatus)
      → CanSend l w auv_nav status a.vehicle_id
      → Among a.modem_id c.auv_modem_ids
      → (t : State) × Steps w l c (auv_reports w l c a status s) t
        × (shown : NodeStatus) × Among shown t.shown
        × IsShown w (auv_name a.vehicle_id) auv status shown
  unfolding AuvManager.on_node_status UsvManager.on_auv_nav TopsideManager.republish publish_nav
      nav_publisher nav_subscriber
  auv_progress s a status ok listed =
      let nav = sent_as w auv_nav status a.vehicle_id in
      let heard = rounded laws.round nav in
      let sent : State = auv_reports w l c a status s in
      let links = subscriptions-Hears auv_nav a.modem_id c.usv_modem_id c.auv_modem_ids in
      let relayed : State = usv_relays w l c heard sent in
      let by_usv = subscriptions-Hears auv_nav c.usv_modem_id c.usv_modem_id c.auv_modem_ids in
      let last : State = topside_shows w l c heard relayed in
      (
        last,
        later
            (later stay (
              to_usv a.modem_id nav heard (Among-last (a.modem_id, nav) s.air) (laws.takes nav ok.1)
                (links.1.1 (refl, listed))))
            (to_topside c.usv_modem_id heard heard (Among-last (c.usv_modem_id, heard) sent.air)
              (laws.takes_again nav ok.1) (by_usv.2.1 refl)),
        to_node_status w heard,
        Among-last (to_node_status w heard) s.shown,
        auv_report-IsShown w l laws status a.vehicle_id,
      )

  usv_progress :
      (s : State) (a : Auv) (status : NodeStatus)
      → CanSend l w usv_nav status c.usv_id
      → Among a c.auvs
      → (t : State) × Steps w l c (usv_reports w l c status s) t
        × ((shown : NodeStatus) × Among shown t.shown × IsShown w usv_name usv status shown)
        × (nav : NavigationReport) × Among nav t.helm
        × IsRounded (sent_as w usv_nav status c.usv_id) nav
  unfolding UsvManager.on_node_status AuvManager.on_usv_nav TopsideManager.republish publish_nav
      nav_publisher nav_subscriber
  usv_progress s a status ok member =
      let nav = sent_as w usv_nav status c.usv_id in
      let heard = rounded laws.round nav in
      let links = subscriptions-Hears usv_nav c.usv_modem_id c.usv_modem_id c.auv_modem_ids in
      let sent : State = usv_reports w l c status s in
      let on_air = Among-last (c.usv_modem_id, nav) s.air in
      (
        topside_shows w l c heard (auv_hands_on w l c a heard sent),
        later
            (later stay (
              to_auv a c.usv_modem_id nav heard member on_air (laws.takes nav ok.1)
                (links.0.1 (refl, refl))))
            (to_topside c.usv_modem_id nav heard on_air (laws.takes nav ok.1) (links.2.1 refl)),
        (
          to_node_status w heard,
          Among-last (to_node_status w heard) s.shown,
          usv_report-IsShown w l laws status c.usv_id,
        ),
        heard,
        Among-last heard s.helm,
        rounded-IsRounded w l laws nav,
      )

  -- In any state of the fleet, over a link that keeps to `LinkLaws`, for an AUV of the fleet whose
  -- modem the USV's list names: when its front seat gives its manager a status, some steps lead to a
  -- state in which the topside has shown that status under the AUV's name, rounded to the precisions
  -- of nav.proto; and when the USV's front seat does, to one in which the topside has shown it under
  -- the USV's name, rounded likewise, and the AUV has handed the USV's report of it, rounded
  -- likewise, to its helm. Each status has a heading that a double holds exactly, and makes a report
  -- within the bounds of nav.proto.
  pub report_arrives :
      (s : State) (a : Auv) (status own : NodeStatus)
      → CanSend l w auv_nav status a.vehicle_id
      → CanSend l w usv_nav own c.usv_id
      → Among a c.auvs
      → Among a.modem_id c.auv_modem_ids
      → ((t : State) × Steps w l c (auv_reports w l c a status s) t
          × (shown : NodeStatus) × Among shown t.shown
          × IsShown w (auv_name a.vehicle_id) auv status shown)
        × ((t : State) × Steps w l c (usv_reports w l c own s) t
            × ((shown : NodeStatus) × Among shown t.shown × IsShown w usv_name usv own shown)
            × (nav : NavigationReport) × Among nav t.helm
            × IsRounded (sent_as w usv_nav own c.usv_id) nav)
  report_arrives s a status own ok ok_usv member listed =
      (auv_progress s a status ok listed, usv_progress s a own ok_usv member)
