-- ===== src/Mavlink.antt =====
-- src/interprocess/zeromq/mavlink/app.cpp: an application that logs what an autopilot sends, and
-- sends it a status once a second.
--
-- Goby names the two groups, gives a message the name of its type (the MAVLink message id as a
-- text) and matches a regular expression against it: these are the record `Link`, and `LinkLaws` is
-- what the program relies on. How a message is printed is left out.
pub mod Received
use goby3_examples.Base.{
  ℕ, zero, suc, Bool, true, false, ◌≡◌, Option, none, some, List, [], ◌∷◌, if◌then◌else◌,
}
use goby3_examples.Base.Int.{ℤ, pos}
use goby3_examples.Base.Text.{Text, codes}
use goby3_examples.PubSub.{interprocess, Publication, Subscription}

-- A status, with its battery's voltage and the rest of its fields; a new one is all zero.
pub record SysStatus : Type 0 where
  pub voltage_battery : ℕ
  pub rest : List ℕ

pub data Body : Type 0 where
  heartbeat : List ℕ → Body
  sys_status : SysStatus → Body
  other : ℕ → Body

pub record MavlinkMessage : Type 0 where
  pub sys_id : ℤ
  pub component_id : ℤ
  pub len : ℕ
  pub body : Body

pub record Link : Type 0 where
  pub mavlink_raw_in : Text
  pub mavlink_raw_out : Text
  pub type_of : Body → Text
  pub matches : Text → Text → Bool
  -- the length of a packed message
  pub packed : Body → ℕ

-- HEARTBEAT has the id 0 and SYS_STATUS the id 1, and the expression matches both.
pub record LinkLaws (l : Link) : Type 0 where
  pub heartbeat_type : (h : List ℕ) → l.type_of (heartbeat h) ≡ codes "0"
  pub sys_status_type : (s : SysStatus) → l.type_of (sys_status s) ≡ codes "1"
  pub matches_0 : l.matches (codes "^0|1$") (codes "0") ≡ true
  pub matches_1 : l.matches (codes "^0|1$") (codes "1") ≡ true

pub data Logged : Type 0 where
  heartbeat_with_ids : ℤ → ℤ → List ℕ → Logged
  heartbeat_alone : List ℕ → Logged
  status : SysStatus → Logged
  raw : Text → ℕ → Logged

abbrev Callback : Type 0
Callback = MavlinkMessage → Option (List Logged)

pub heartbeat_body : ℤ → ℤ → Body → Option (List Logged)
heartbeat_body sys comp (heartbeat h) = some (heartbeat_with_ids sys comp h ∷ [])
heartbeat_body sys comp _ = none

pub on_heartbeat_with_metadata : Callback
unfolding heartbeat_body
on_heartbeat_with_metadata m = heartbeat_body m.sys_id m.component_id m.body

pub alone_body : Body → Option (List Logged)
alone_body (heartbeat h) = some (heartbeat_alone h ∷ [])
alone_body _ = none

pub on_heartbeat : Callback
unfolding alone_body
on_heartbeat m = alone_body m.body

pub handle_system_status : Body → Option (List Logged)
handle_system_status (sys_status s) = some (status s ∷ [])
handle_system_status _ = none

pub on_raw : Link → Callback
on_raw l m =
    let type = l.type_of m.body in
    if l.matches (codes "^0|1$") type then some (raw type m.len ∷ []) else none

-- The constructor of `MavlinkExample`.
unfoldable pub subscriptions : Link → List (Subscription MavlinkMessage Logged)
unfolding on_heartbeat_with_metadata on_heartbeat handle_system_status on_raw
subscriptions l =
    let on = λ (callback : MavlinkMessage → Option (List Logged)).
      let s : Subscription MavlinkMessage Logged = record {
        layer = interprocess;
        group = l.mavlink_raw_in;
        callback = callback;
      } in
      s in
    on on_heartbeat_with_metadata
    ∷ on on_heartbeat
    ∷ on (λ m. handle_system_status m.body)
    ∷ on (on_raw l)
    ∷ []

-- The two fields of config.proto, with their defaults.
pub record Config : Type 0 where
  pub mavlink_sys_id : Option ℤ
  pub mavlink_component_id : Option ℤ

abbrev or_else : Option ℤ → ℤ → ℤ
or_else none d = d
or_else (some a) d = a

abbrev pub new_status : SysStatus
new_status = record { voltage_battery = 24; rest = [] }

unfoldable pub loop : Link → Config → Publication MavlinkMessage
loop l cfg = record {
  layer = interprocess;
  group = l.mavlink_raw_out;
  message = record {
    sys_id = or_else cfg.mavlink_sys_id (pos 2);
    component_id = or_else cfg.mavlink_component_id (pos 1);
    len = l.packed (sys_status new_status);
    body = sys_status new_status;
  };
}
