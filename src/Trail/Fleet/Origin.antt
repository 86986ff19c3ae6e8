-- ===== src/Trail/Fleet/Origin.antt =====
-- Where the reports come from that are handed to a helm and shown topside.
use goby3_examples.Base.{All, Among-All, All-Among, ◌≡◌, some, Among, ◌⊎◌, inl, inr}
use goby3_examples.Trail.{
  usv_nav, auv_nav, auv, usv, NavigationReport, NodeStatus, World, nav_publisher,
}
use goby3_examples.Trail.Link.{Link, LinkLaws, ReportFits, rounded}
use goby3_examples.Trail.Relay.{
  CanSend, IsShown, IsRounded, auv_name, usv_name, auv_report-IsShown, usv_report-IsShown,
  rounded-IsRounded,
}
use goby3_examples.Trail.Fleet.{Auv, Config, State, Steps, start}
use goby3_examples.Trail.Fleet.Sound.{
  auv_report, usv_report, Copy, original, relayed, IsSound, Steps-IsSound,
}

module _ (w : World) (l : Link) (laws : LinkLaws l) (c : Config) where
  -- A copy of a report that fits is received as the rounded report.
  copy_carried :
      (a : Auv) (status : NodeStatus) (m received : NavigationReport)
      → ReportFits l (auv_report w l laws.keeps_type c a status)
      → Copy w l laws.keeps_type c (auv_report w l laws.keeps_type c a status) m
      → l.carry m ≡ some received
      → received ≡ rounded laws.round (auv_report w l laws.keeps_type c a status)
  unfolding nav_publisher
  copy_carried a status m received fits original e = cc (laws.takes m fits)
  copy_carried a status m received fits (relayed {m = n} {received = r} copy got) e =
      let same = copy_carried a status n r fits copy got in
      let again : l.carry (nav_publisher auv_nav r)
          ≡ some (rounded laws.round (auv_report w l laws.keeps_type c a status)) =
        rw same (laws.takes_again (auv_report w l laws.keeps_type c a status) fits) in
      cc

  -- A status of an AUV of the fleet under its name, or one of the USV's own.
  abbrev pub IsOwn : State → NodeStatus → Type 0
  IsOwn s status =
      ((a : Auv) × (own : NodeStatus) × Among a c.auvs
        × Among (a, own) s.auv_status
        × IsShown w (auv_name a.vehicle_id) auv own status)
      ⊎ ((own : NodeStatus) × Among own s.usv_status × IsShown w usv_name usv own status)

  -- What the front seats have told can be sent.
  abbrev pub AllSendable : State → Type 0
  AllSendable s =
      All (λ p. CanSend l w auv_nav p.1 p.0.vehicle_id) s.auv_status
      × All (λ own. CanSend l w usv_nav own c.usv_id) s.usv_status

  topside-IsOwn :
      (s : State) (status : NodeStatus)
      → AllSendable s
      → IsSound w l laws.keeps_type c s
      → Among status s.shown
      → IsOwn s status
  topside-IsOwn s status sendable sound h =
      let (nav, received, known, got, e) = sound.topside status h in
      elim known [
        | inl (a, own, member, told, copy) ↦
            let fits = (All-Among _ s.auv_status (a, own) sendable.0 told).1 in
            let same = copy_carried a own nav received fits copy got in
            inl (a, own, member, told, rw (e, same) (auv_report-IsShown w l laws own a.vehicle_id))
        | inr (own, told, from) ↦
            let fits = (All-Among _ s.usv_status own sendable.1 told).1 in
            let same : received ≡ rounded laws.round (usv_report w l laws.keeps_type c own) =
              cc (laws.takes (usv_report w l laws.keeps_type c own) fits) in
            inr (own, told, rw (e, same) (usv_report-IsShown w l laws own c.usv_id))
      ]

  helm-IsRounded :
      (s : State) (nav : NavigationReport)
      → AllSendable s
      → IsSound w l laws.keeps_type c s
      → Among nav s.helm
      → (own : NodeStatus) × Among own s.usv_status
        × IsRounded (usv_report w l laws.keeps_type c own) nav
  helm-IsRounded s nav sendable sound h =
      let (own, told, got) = sound.at_helm nav h in
      let fits = (All-Among _ s.usv_status own sendable.1 told).1 in
      let same : nav ≡ rounded laws.round (usv_report w l laws.keeps_type c own) =
        cc (laws.takes (usv_report w l laws.keeps_type c own) fits) in
      (own, told, rw same (rounded-IsRounded w l laws _))

  -- From a start with nothing on the air, through any steps of the managers, over a link that keeps
  -- to `LinkLaws`, if each status that the front seats have told has a heading that a double holds
  -- exactly and makes a report within the bounds of nav.proto: each status that the topside shows is
  -- one that the front seat of an AUV of the fleet, or that of the USV, gave its manager, under the
  -- name and the type of that vehicle, with its time, position, depth, speed and heading, each
  -- rounded once to the precision of nav.proto; and each report that an AUV hands to its helm is the
  -- USV's report of one of the USV's own statuses, rounded likewise.
  pub reached_origin :
      (s : State)
      → AllSendable s
      → Steps w l c start s
      → All (IsOwn s) s.shown
        × All
            (λ nav.
              (own : NodeStatus) × Among own s.usv_status
              × IsRounded (usv_report w l laws.keeps_type c own) nav)
            s.helm
  reached_origin s sendable reached =
      let sound = Steps-IsSound w l laws.keeps_type c s reached in
      (
        Among-All (IsOwn s) s.shown (λ status h. topside-IsOwn s status sendable sound h),
        Among-All _ s.helm (λ nav h. helm-IsRounded s nav sendable sound h),
      )
