-- ===== src/IoExamples/Can.antt =====
-- can_example/main.cpp: a CAN bus, whose frames are logged.
use goby3_examples.Base.{ℕ, Option, none, some, List, [], ◌∷◌, ◌++◌}
use goby3_examples.Base.Text.{Text, codes}
use goby3_examples.IoExamples.{or_default}
use goby3_examples.PubSub.{Subscription}
use goby3_examples.IoExamples.{Mail, can_frame, Effect, log, on, Launch, can_thread}

pub record Filter : Type 0 where
  pub can_id : ℕ

pub record CanConfig : Type 0 where
  pub interface : Option Text
  pub filter : List Filter

pub record Config : Type 0 where
  pub can_config : Option CanConfig

-- `mutable_can_config` gives an empty configuration where there is none.
abbrev pub given : Option CanConfig → CanConfig
given none = record { interface = none; filter = [] }
given (some c) = c

-- `CanConfigurator`.
unfoldable pub configure : Config → Config
configure cfg =
    let c = given cfg.can_config in
    record {
      can_config = some (record {
        interface = some (or_default (codes "vcan0") c.interface);
        filter = c.filter ++ record { can_id = 436 } ∷ [];
      });
    }

-- The text that is logged of a frame is left out.
pub on_frame : Mail → Option (List Effect)
on_frame (can_frame f) = some (log (codes "") (can_frame f) ∷ [])
on_frame _ = none

-- The constructors of `CanDataHandleThread` and `CanExample`.
unfoldable pub subscriptions : List (Subscription Mail Effect)
unfolding on_frame
subscriptions = on (codes "can_in") on_frame ∷ []

unfoldable pub launches : Config → List Launch
launches cfg = can_thread (given cfg.can_config).interface (codes "can_in") (codes "can_out") ∷ []
