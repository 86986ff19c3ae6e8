-- ===== src/Mavlink/Received.antt =====
-- What the application logs of a message from an autopilot, of each kind.
use goby3_examples.Base.{
  each, replicate, zero, suc, ℕ, ◌≡◌, refl, List, [], ◌∷◌, ◌++◌, if◌then◌else◌, Bool-cases, inl,
  inr,
}
use goby3_examples.Base.Int.{ℤ}
use goby3_examples.Base.Text.{codes, text_eq, text_eq_refl}
use goby3_examples.PubSub.{interprocess, Transporter, TransporterLaws, Publication, deliver}
use goby3_examples.Mavlink.{
  Body, heartbeat, sys_status, other, MavlinkMessage, Link, LinkLaws, Logged, heartbeat_with_ids,
  heartbeat_alone, status, raw, subscriptions, Config, loop, SysStatus,
}

abbrev pub raw_in : Link → MavlinkMessage → Publication MavlinkMessage
raw_in l m = record { layer = interprocess; group = l.mavlink_raw_in; message = m }

-- The log of a message: a heartbeat three times, a status twice, another message at most once.
abbrev pub log_of : Link → MavlinkMessage → Body → List Logged
log_of l m (heartbeat h) =
    heartbeat_with_ids m.sys_id m.component_id h ∷ heartbeat_alone h ∷ raw (codes "0") m.len ∷ []
log_of l m (sys_status s) = status s ∷ raw (codes "1") m.len ∷ []
log_of l m (other id) =
    if l.matches (codes "^0|1$") (l.type_of (other id))
    then raw (l.type_of (other id)) m.len ∷ []
    else []

-- A link takes up what is published on the group of outgoing messages.
abbrev pub carried : Link → Publication MavlinkMessage → List (Publication MavlinkMessage)
carried l p = if text_eq p.group l.mavlink_raw_out then raw_in l p.message ∷ [] else []

-- A status whose voltage is 24, and nothing else set.
abbrev pub at_24 : SysStatus
at_24 = record { voltage_battery = 24; rest = [] }

module _ (tr : Transporter) (laws : TransporterLaws tr) (l : Link) (ll : LinkLaws l) where
  logs :
      (sys comp : ℤ) (len : ℕ) (b : Body)
      → let m : MavlinkMessage = record {
        sys_id = sys;
        component_id = comp;
        len = len;
        body = b;
      } in
        deliver tr (subscriptions l) (raw_in l m) ≡ log_of l m b
  unfolding deliver subscriptions
  logs sys comp len (heartbeat h) =
      rw (laws.same interprocess, text_eq_refl l.mavlink_raw_in, ll.heartbeat_type h, ll.matches_0)
        refl
  logs sys comp len (sys_status s) =
      rw (laws.same interprocess, text_eq_refl l.mavlink_raw_in, ll.sys_status_type s, ll.matches_1)
        refl
  logs sys comp len (other id) =
      rw (laws.same interprocess, text_eq_refl l.mavlink_raw_in)
        (elim (Bool-cases (l.matches (codes "^0|1$") (l.type_of (other id)))) [
          | inl e ↦ rw e refl
          | inr e ↦ rw e refl
        ])

  -- The first application's statuses, as a link hands them in to a second one.
  abbrev pub relayed : Config → ℕ → List Logged
  relayed cfg zero = []
  relayed cfg (suc n) =
      each (deliver tr (subscriptions l)) (carried l (loop l cfg)) ++ relayed cfg n

  relayed-replicate :
      (cfg : Config) (n : ℕ)
      → relayed cfg n
        ≡ each (λ s. status s ∷ raw (codes "1") (l.packed (sys_status s)) ∷ []) (replicate n at_24)
  unfolding loop
  relayed-replicate cfg zero = refl
  relayed-replicate cfg (suc n) =
      rw (text_eq_refl l.mavlink_raw_out, logs _ _ _ (sys_status at_24), relayed-replicate cfg n)
        refl

  -- Over a transporter that behaves as Goby documents and a link that keeps to `LinkLaws`: of a
  -- heartbeat the application logs its ids and contents, its contents again, and its type and length;
  -- of a status its contents, and its type and length; and of another message the type and length,
  -- exactly if the expression matches the type. The statuses that another application with any
  -- configuration sends in n rounds on the group of outgoing messages, handed in over the link, are
  -- logged as n statuses whose voltage field is 24, and n types and lengths, in turn.
  pub deliver-log_of :
      (m : MavlinkMessage) (cfg : Config) (n : ℕ)
      → (deliver tr (subscriptions l) (raw_in l m) ≡ log_of l m m.body)
        × (relayed cfg n
            ≡ each
                (λ s. status s ∷ raw (codes "1") (l.packed (sys_status s)) ∷ [])
                (replicate n at_24))
  deliver-log_of m cfg n = (logs m.sys_id m.component_id m.len m.body, relayed-replicate cfg n)
