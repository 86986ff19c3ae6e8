-- ===== src/Trail/AuvManager.antt =====
-- auv_manager/auv_manager.cpp: sends the AUV's position to the USV, and hands the USV's position to
-- the helm.
use goby3_examples.Base.{true, false, List, [], ◌∷◌}
use goby3_examples.Base.Int.{ℤ}
use goby3_examples.Trail.{
  NavigationReport, NodeStatus, World, Subscription, Published, interprocess_nav, usv_nav, auv_nav,
  to_dccl, publish_nav,
}

unfoldable pub on_node_status : World → ℤ → NodeStatus → Published
on_node_status world vehicle_id status = publish_nav auv_nav (to_dccl world status vehicle_id)

unfoldable pub on_usv_nav : NavigationReport → Published
on_usv_nav nav = interprocess_nav usv_nav nav

unfoldable pub subscriptions : ℤ → List Subscription
subscriptions usv_modem_id =
    record {
      group = usv_nav;
      publisher_id = usv_modem_id;
      broadcast = true;
      ack_required = false;
      max_queue = 1;
      newest_first = true;
    }
    ∷ []
