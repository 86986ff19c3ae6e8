-- ===== src/Trail/TopsideManager.antt =====
-- topside_manager/topside_manager.cpp: shows each vehicle's position on the interprocess layer.
use goby3_examples.Base.{true, false, List, [], ◌∷◌}
use goby3_examples.Base.Int.{ℤ}
use goby3_examples.Trail.{
  NavigationReport, World, Subscription, Published, interprocess_status, usv_nav, auv_nav,
  to_node_status,
}

unfoldable pub republish : World → NavigationReport → Published
republish world nav = interprocess_status (to_node_status world nav)

unfoldable pub usv_subscription : ℤ → Subscription
usv_subscription usv_modem_id = record {
  group = usv_nav;
  publisher_id = usv_modem_id;
  broadcast = false;
  ack_required = false;
  max_queue = 1;
  newest_first = true;
}

-- The second subscription is the first one with its group and buffer settings changed.
unfoldable pub subscriptions : ℤ → List Subscription
subscriptions usv_modem_id =
    let first = usv_subscription usv_modem_id in
    first
    ∷ record first { group = auv_nav; ack_required = true; max_queue = 10; newest_first = false }
    ∷ []
