-- ===== src/Trail/Fleet/Sound.antt =====
-- An invariant of a fleet: whose reports are on the air, at the helms and topside.
use goby3_examples.Base.{
  some, ◌≡◌, ◌≢◌, refl, sym, ap, ◌∙◌, [], ◌∷◌, ◌++◌, Among, Among-left, Among-snoc, Among-last, ◌⊎◌,
  inl, inr,
}
use goby3_examples.Base.Int.{ℤ}
use goby3_examples.Trail.{
  usv_nav, auv_nav, NavigationReport, NodeStatus, World, nav_publisher, nav_subscriber, publish_nav,
  to_dccl, to_node_status, class_group,
}
use goby3_examples.Trail.AuvManager
use goby3_examples.Trail.UsvManager
use goby3_examples.Trail.TopsideManager
use goby3_examples.Trail.Link.{Link}
use goby3_examples.Trail.Links.{subscriptions-Hears}
use goby3_examples.Trail.Fleet.{
  Auv, Config, State, Step, auv_status, usv_status, to_usv, to_auv, to_topside, Steps, stay, later,
  start,
}

module _ (w : World) (l : Link)
    (keeps : (n m : NavigationReport) → l.carry n ≡ some m → m.type ≡ n.type) (c : Config) where
  -- The report that an AUV sends, and the one that the USV sends.
  abbrev pub auv_report : Auv → NodeStatus → NavigationReport
  auv_report a status = nav_publisher auv_nav (to_dccl w status a.vehicle_id)

  abbrev pub usv_report : NodeStatus → NavigationReport
  usv_report status = nav_publisher usv_nav (to_dccl w status c.usv_id)

  -- A report of an AUV, or what the USV relays of it.
  pub data Copy (n : NavigationReport) : NavigationReport → Type 0 where
    original : Copy n n
    relayed :
        {m received : NavigationReport}
        → Copy n m
        → l.carry m ≡ some received
        → Copy n (nav_publisher auv_nav received)

  abbrev pub FromAuv : State → NavigationReport → Type 0
  FromAuv s nav =
      (a : Auv) × (status : NodeStatus) × Among a c.auvs
      × Among (a, status) s.auv_status
      × Copy (auv_report a status) nav

  abbrev pub FromUsv : State → NavigationReport → Type 0
  FromUsv s nav = (status : NodeStatus) × Among status s.usv_status × (nav ≡ usv_report status)

  abbrev pub Known : State → NavigationReport → Type 0
  Known s nav = FromAuv s nav ⊎ FromUsv s nav

  pub record IsSound (s : State) : Type 0 where
    pub on_air : (from : ℤ) (nav : NavigationReport) → Among (from, nav) s.air → Known s nav
    pub at_helm :
        (nav : NavigationReport)
        → Among nav s.helm
        → (status : NodeStatus) × Among status s.usv_status
          × (l.carry (usv_report status) ≡ some nav)
    pub topside :
        (status : NodeStatus)
        → Among status s.shown
        → (nav received : NavigationReport) × Known s nav
          × (l.carry nav ≡ some received)
          × (status ≡ to_node_status w received)

  pub auv_group : (a : Auv) (status : NodeStatus) → nav_subscriber (auv_report a status) ≡ auv_nav
  unfolding nav_subscriber nav_publisher
  auv_group a status = refl

  pub usv_group : (status : NodeStatus) → nav_subscriber (usv_report status) ≡ usv_nav
  unfolding nav_subscriber nav_publisher
  usv_group status = refl

  Copy-group :
      (a : Auv) (status : NodeStatus) (m : NavigationReport)
      → Copy (auv_report a status) m
      → nav_subscriber m ≡ auv_nav
  unfolding nav_subscriber nav_publisher
  Copy-group a status m original = refl
  Copy-group a status m (relayed copy e) = refl

  -- The group of what is received is that of what was sent.
  pub same_group :
      (n m : NavigationReport) → l.carry n ≡ some m → nav_subscriber m ≡ nav_subscriber n
  unfolding nav_subscriber
  same_group n m e = ap class_group (keeps n m e)

  usv≢auv : usv_nav ≢ auv_nav
  usv≢auv e = cc

  by_auv :
      (s : State) (nav : NavigationReport)
      → Known s nav
      → nav_subscriber nav ≡ auv_nav
      → FromAuv s nav
  by_auv s nav (inl k) g = k
  by_auv s nav (inr (status, told, e)) g = absurd (usv≢auv (cc (usv_group status, e, g)))

  by_usv :
      (s : State) (nav : NavigationReport)
      → Known s nav
      → nav_subscriber nav ≡ usv_nav
      → FromUsv s nav
  by_usv s nav (inl (a, status, m, told, e)) g =
      absurd (usv≢auv (sym g ∙ Copy-group a status nav e))
  by_usv s nav (inr k) g = k

  -- More has been told and sent.
  Known-grows :
      (s t : State) (nav : NavigationReport)
      → ((p : Auv × NodeStatus) → Among p s.auv_status → Among p t.auv_status)
      → ((st : NodeStatus) → Among st s.usv_status → Among st t.usv_status)
      → Known s nav
      → Known t nav
  Known-grows s t nav more more_usv (inl (a, status, m, l, e)) =
      inl (a, status, m, more (a, status) l, e)
  Known-grows s t nav more more_usv (inr (status, l, e)) = inr (status, more_usv status l, e)

  -- A report that comes from a vehicle is added to what is on the air.
  sends :
      (s t : State) (from : ℤ) (nav : NavigationReport)
      → IsSound s
      → ((p : Auv × NodeStatus) → Among p s.auv_status → Among p t.auv_status)
      → ((st : NodeStatus) → Among st s.usv_status → Among st t.usv_status)
      → t.air ≡ s.air ++ (from, nav) ∷ []
      → t.helm ≡ s.helm
      → t.shown ≡ s.shown
      → Known t nav
      → IsSound t
  sends s t from nav sound more more_usv air helm shown k = record {
    on_air = λ f n h. elim (Among-snoc (f, n) (from, nav) s.air (rw air at h)) [
      | inl l ↦ Known-grows s t n more more_usv (sound.on_air f n l)
      | inr e ↦ rw (sym (ap (λ p. p.1) e)) k
    ];
    at_helm = λ n h.
        let (status, told, e) = sound.at_helm n (rw helm at h) in (status, more_usv status told, e);
    topside = λ status h.
        let (n, r, known, got, e) = sound.topside status (rw shown at h) in
        (n, r, Known-grows s t n more more_usv known, got, e);
  }

  Step-IsSound : (s t : State) → IsSound s → Step w l c s t → IsSound t
  unfolding AuvManager.on_node_status UsvManager.on_node_status UsvManager.on_auv_nav
      AuvManager.on_usv_nav TopsideManager.republish publish_nav
  Step-IsSound s t sound (auv_status a status member) =
      sends s _ a.modem_id (auv_report a status) sound (λ p l. Among-left p s.auv_status _ l)
        (λ st l. l) refl refl refl
        (inl (a, status, member, Among-last (a, status) s.auv_status, original))
  Step-IsSound s t sound (usv_status status) =
      sends s _ c.usv_modem_id (usv_report status) sound (λ p l. l)
        (λ st l. Among-left st s.usv_status _ l) refl refl refl
        (inr (status, Among-last status s.usv_status, refl))
  Step-IsSound s t sound (to_usv from nav heard air got hears) =
      let group =
        ((subscriptions-Hears (nav_subscriber heard) from c.usv_modem_id c.auv_modem_ids).1.0
          hears).0 in
      let (a, status, member, told, copy) =
        by_auv s nav (sound.on_air from nav air) (sym (same_group nav heard got) ∙ group) in
      sends s _ c.usv_modem_id (nav_publisher auv_nav heard) sound (λ p h. h) (λ st h. h) refl refl
        refl (inl (a, status, member, told, relayed copy got))
  Step-IsSound s t sound (to_auv a from nav heard member air got hears) =
      let group =
        ((subscriptions-Hears (nav_subscriber heard) from c.usv_modem_id c.auv_modem_ids).0.0
          hears).0 in
      let (status, told, e) =
        by_usv s nav (sound.on_air from nav air) (sym (same_group nav heard got) ∙ group) in
      record {
        on_air = sound.on_air;
        at_helm = λ n h. elim (Among-snoc n heard s.helm h) [
          | inl old ↦ sound.at_helm n old
          | inr same ↦ (status, told, rw (sym e, sym same) got)
        ];
        topside = sound.topside;
      }
  Step-IsSound s t sound (to_topside from nav heard air got hears) = record {
    on_air = sound.on_air;
    at_helm = sound.at_helm;
    topside = λ status h. elim (Among-snoc status (to_node_status w heard) s.shown h) [
      | inl old ↦ sound.topside status old
      | inr e ↦ (nav, heard, sound.on_air from nav air, got, sym e)
    ];
  }

  pub Steps-IsSound : (s : State) → Steps w l c start s → IsSound s
  Steps-IsSound s stay = record {
    on_air = λ f n h. absurd h;
    at_helm = λ n h. absurd h;
    topside = λ st h. absurd h;
  }
  Steps-IsSound s (later before last) = Step-IsSound _ s (Steps-IsSound _ before) last
