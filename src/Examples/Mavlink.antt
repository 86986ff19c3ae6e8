-- ===== src/Examples/Mavlink.antt =====
-- An autopilot's heartbeat, and two statuses of another application.
use goby3_examples.Base.{◌≡◌, refl, none, some, [], ◌∷◌, ◌||◌, each, replicate}
use goby3_examples.Base.Int.{pos}
use goby3_examples.Base.Text.{Text, codes, to_string, text_eq}
use goby3_examples.PubSub.{deliver}
use goby3_examples.Mavlink.{
  Body, heartbeat, sys_status, other, MavlinkMessage, Link, LinkLaws, Config, subscriptions, status,
  raw,
}
use goby3_examples.Mavlink.Received.{raw_in, log_of, relayed, at_24, deliver-log_of}
use goby3_examples.Examples.PubSub.{transporter, transporter_laws}

abbrev type_of : Body → Text
type_of (heartbeat h) = codes "0"
type_of (sys_status s) = codes "1"
type_of (other id) = to_string id

abbrev link : Link
link = record {
  mavlink_raw_in = codes "mavlink_raw_in";
  mavlink_raw_out = codes "mavlink_raw_out";
  type_of = type_of;
  matches = λ pattern t. text_eq t (codes "0") || text_eq t (codes "1");
  packed = λ b. 43;
}

link_laws : LinkLaws link
unfolding text_eq
link_laws = record {
  heartbeat_type = λ h. refl;
  sys_status_type = λ s. refl;
  matches_0 = refl;
  matches_1 = refl;
}

abbrev beat : MavlinkMessage
beat = record { sys_id = pos 1; component_id = pos 1; len = 21; body = heartbeat (2 ∷ 3 ∷ []) }

abbrev defaults : Config
defaults = record { mavlink_sys_id = none; mavlink_component_id = some (pos 7) }

deliver-log_of_example :
    (deliver transporter (subscriptions link) (raw_in link beat) ≡ log_of link beat beat.body)
    × (relayed transporter transporter_laws link link_laws defaults 2
        ≡ each
            (λ s. status s ∷ raw (codes "1") (link.packed (sys_status s)) ∷ [])
            (replicate 2 at_24))
deliver-log_of_example = deliver-log_of transporter transporter_laws link link_laws beat defaults 2
