-- ===== src/Trail/UsvManager.antt =====
-- usv_manager/usv_manager.cpp: sends the USV's position to the AUVs and topside, and relays the
-- AUVs' positions topside.
use goby3_examples.Base.{true, false, List, map}
use goby3_examples.Base.Int.{ℤ}
use goby3_examples.Trail.{
  NavigationReport, NodeStatus, World, Subscription, Published, usv_nav, auv_nav, to_dccl,
  publish_nav,
}

unfoldable pub on_node_status : World → ℤ → NodeStatus → Published
on_node_status world vehicle_id status = publish_nav usv_nav (to_dccl world status vehicle_id)

-- The relay.
unfoldable pub on_auv_nav : NavigationReport → Published
on_auv_nav nav = publish_nav auv_nav nav

unfoldable pub subscription : ℤ → Subscription
subscription auv_modem_id = record {
  group = auv_nav;
  publisher_id = auv_modem_id;
  broadcast = false;
  ack_required = false;
  max_queue = 1;
  newest_first = true;
}

unfoldable pub subscriptions : List ℤ → List Subscription
subscriptions auv_modem_ids = map subscription auv_modem_ids
