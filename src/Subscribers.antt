-- ===== src/Subscribers.antt =====
-- The programs that subscribe to the random reports: the basic subscribers under
-- src/interprocess, src/interthread and src/intervehicle, and those of broadcast, same_group and
-- json.
--
-- A program is its subscriptions, as its constructor makes them; what a callback prints is a list.
-- The text around a report is left out; the notices of acknowledged or expired subscriptions are in
-- Notices. A program hears only programs on its own network, which its base class names.
pub mod Heard
use goby3_examples.Base.{
  each, ℕ, Bool, true, false, Option, none, some, List, [], ◌∷◌, ◌++◌, if◌then◌else◌, ltb, ◌==◌,
}
use goby3_examples.Base.Int.{ℤ}
use goby3_examples.Base.Text.{Text, codes}
use goby3_examples.PubSub.{
  interthread, interprocess, intervehicle, Transporter, Publication, Subscription, deliver,
}
use goby3_examples.LogControl.{NavigationReport}
use goby3_examples.Publishers.{
  Message, protobuf_nav, dccl_nav, json_nav, dccl_nav_with_id, json, Program, Published,
}

abbrev pub Object : Type 0
Object = List (Text × ℤ)

pub data Printed : Type 0 where
  rx rx_json received : NavigationReport → Printed
  rx_by : ℕ → NavigationReport → Printed
  received_with_id : ℤ → NavigationReport → Printed
  link_header : Printed
  as_json : Object → Printed

abbrev Callback : Type 0
Callback = Message → Option (List Printed)

-- The callbacks of the basic subscribers, for the report of nav.proto.
pub incoming_nav : Callback
incoming_nav (protobuf_nav r) = some (rx r ∷ [])
incoming_nav _ = none

-- The thread of that index.
pub incoming_nav_by : ℕ → Callback
incoming_nav_by index (protobuf_nav r) = some (rx_by index r ∷ [])
incoming_nav_by index _ = none

-- Between vehicles, the callback for the link header runs before the one for the report.
pub on_nav_header : List Printed
on_nav_header = link_header ∷ []

pub on_nav : Callback
unfolding on_nav_header
on_nav (dccl_nav r) = some (on_nav_header ++ received r ∷ [])
on_nav _ = none

-- The subscriber of broadcast asks for no header.
pub on_nav_broadcast : Callback
on_nav_broadcast (dccl_nav r) = some (received r ∷ [])
on_nav_broadcast _ = none

pub on_nav_with_id_header : List Printed
on_nav_with_id_header = link_header ∷ []

pub on_nav_with_id : Callback
unfolding on_nav_with_id_header
on_nav_with_id (dccl_nav_with_id id r) = some (on_nav_with_id_header ++ received_with_id id r ∷ [])
on_nav_with_id _ = none

pub incoming_json_nav : Callback
incoming_json_nav (json_nav r) = some (rx_json r ∷ [])
incoming_json_nav _ = none

-- NLOHMANN_DEFINE_TYPE_NON_INTRUSIVE of nav.h.
unfoldable pub to_json : NavigationReport → Object
to_json r = (codes "x", r.x) ∷ (codes "y", r.y) ∷ (codes "z", r.z) ∷ []

-- The subscription by a regular expression, to every type that is marshalled as JSON.
pub on_json : Callback
unfolding to_json
on_json (json_nav r) = some (as_json (to_json r) ∷ [])
on_json (json kvs) = some (as_json kvs ∷ [])
on_json _ = none

abbrev Subscriptions : Type 0
Subscriptions = List (Subscription Message Printed)

unfoldable pub zeromq_subscriber : Subscriptions
unfolding incoming_nav
zeromq_subscriber =
    record { layer = interprocess; group = codes "nav"; callback = incoming_nav } ∷ []

unfoldable pub udpm_subscriber : Subscriptions
unfolding incoming_nav
udpm_subscriber = record { layer = interprocess; group = codes "nav"; callback = incoming_nav } ∷ []

unfoldable pub zenoh_subscriber : Subscriptions
unfolding incoming_nav
zenoh_subscriber =
    record { layer = interprocess; group = codes "nav"; callback = incoming_nav } ∷ []

unfoldable pub thread_subscriber : ℕ → Subscriptions
unfolding incoming_nav_by
thread_subscriber index =
    record { layer = interthread; group = codes "nav"; callback = incoming_nav_by index } ∷ []

-- The constructor of `BasicMultiThreadPubSub` launches two of them, next to the publisher.
unfoldable pub multi_thread_pub_sub : Subscriptions
unfolding thread_subscriber
multi_thread_pub_sub = thread_subscriber 0 ++ thread_subscriber 1

unfoldable pub intervehicle_subscriber : Subscriptions
unfolding on_nav
intervehicle_subscriber =
    record { layer = intervehicle; group = codes "nav"; callback = on_nav } ∷ []

unfoldable pub broadcast_subscriber : Subscriptions
unfolding on_nav_broadcast
broadcast_subscriber =
    record { layer = intervehicle; group = codes "nav"; callback = on_nav_broadcast } ∷ []

unfoldable pub same_group_subscriber : Subscriptions
unfolding on_nav_with_id
same_group_subscriber =
    record { layer = intervehicle; group = codes "nav"; callback = on_nav_with_id } ∷ []

unfoldable pub json_subscriber : Subscriptions
unfolding incoming_json_nav on_json
json_subscriber =
    record { layer = interprocess; group = codes "nav"; callback = incoming_json_nav }
    ∷ record { layer = interprocess; group = codes "nav"; callback = on_json }
    ∷ []

pub data Listener : Type 0 where
  on_zeromq on_udpm on_zenoh on_threads on_acoustic on_broadcast on_same_group on_json_group :
      Listener

unfoldable pub subscriptions_of : Listener → Subscriptions
unfolding zeromq_subscriber udpm_subscriber zenoh_subscriber multi_thread_pub_sub
    intervehicle_subscriber broadcast_subscriber same_group_subscriber json_subscriber
subscriptions_of on_zeromq = zeromq_subscriber
subscriptions_of on_udpm = udpm_subscriber
subscriptions_of on_zenoh = zenoh_subscriber
subscriptions_of on_threads = multi_thread_pub_sub
subscriptions_of on_acoustic = intervehicle_subscriber
subscriptions_of on_broadcast = broadcast_subscriber
subscriptions_of on_same_group = same_group_subscriber
subscriptions_of on_json_group = json_subscriber

-- The network of a program's base class. The threads of an application without one stand alone.
pub data Network : Type 0 where
  zeromq udpm zenoh standalone : Network

abbrev pub same_network : Network → Network → Bool
same_network zeromq zeromq = true
same_network udpm udpm = true
same_network zenoh zenoh = true
same_network standalone standalone = true
same_network _ _ = false

abbrev pub publisher_network : Program → Network
publisher_network Program.udpm = udpm
publisher_network Program.zenoh = zenoh
publisher_network Program.threads = standalone
publisher_network _ = zeromq

abbrev pub listener_network : Listener → Network
listener_network on_udpm = udpm
listener_network on_zenoh = zenoh
listener_network on_threads = standalone
listener_network _ = zeromq

-- What Goby and DCCL make of a publication on its way: `none` for one that DCCL cannot encode. Links
-- that lose messages are left out.
abbrev pub Link : Type 0
Link = Publication Message → Option (Publication Message)

abbrev pub crossing : Option (Publication Message) → Published
crossing none = []
crossing (some p) = p ∷ []

abbrev pub deliver_all : Transporter → Subscriptions → Published → List Printed
deliver_all tr ss [] = []
deliver_all tr ss (p ∷ ps) = deliver tr ss p ++ deliver_all tr ss ps

-- What a subscriber prints of what a publisher publishes.
unfoldable pub heard : Transporter → Link → Program → Listener → Published → List Printed
unfolding deliver subscriptions_of
heard tr link p s ps =
    if same_network (publisher_network p) (listener_network s)
    then deliver_all tr (subscriptions_of s) (each (λ q. crossing (link q)) ps)
    else []
