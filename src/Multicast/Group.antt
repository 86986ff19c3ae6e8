-- ===== src/Multicast/Group.antt =====
-- Any number of drivers on one multicast group, each step of one of them in any order.
--
-- A packet that was once sent stays on the air: a driver may hear it at any later time, more than
-- once, or never, so packets are lost, doubled and put out of order. `sent` and `log` record what
-- the applications transmitted and what each modem delivered to its application.
pub mod Sound
pub mod Delivery
pub mod Answer
pub mod Count
pub mod Numbers
pub mod Attribution
use goby3_examples.Base.{ℕ, ◌≡◌, Bool, true, false, List, [], ◌++◌, map, Among, ◌==◌, if◌then◌else◌}
use goby3_examples.Base.Int.{ℤ}
use goby3_examples.Base.Text.{Text}
use goby3_examples.Modem.{ModemTransmission}
use goby3_examples.Multicast.{
  Driver, Effect, Wire, Completion, sent, received, complete, handle_initiate_transmission,
}
use goby3_examples.Multicast.Numbering.{transmitted}
use goby3_examples.Multicast.Link.{packets, delivered}

pub record Group : Type 0 where
  pub driver : ℕ → Driver
  pub air : List Text
  pub sent : List ModemTransmission
  pub log : List (ℤ × ModemTransmission)

abbrev pub id_of : Group → ℕ → ℤ
id_of g i = (g.driver i).driver_cfg.modem_id

abbrev pub update : (ℕ → Driver) → ℕ → Driver → ℕ → Driver
update f i d j = if i == j then d else f j

abbrev pub logged : ℤ → List ModemTransmission → List (ℤ × ModemTransmission)
logged id ms = map (λ m. (id, m)) ms

-- A read brings what is on the air, or an error.
abbrev pub OnAir : List Text → Completion → Type 0
OnAir air (sent error) = Unit
OnAir air (received true bytes) = Unit
OnAir air (received false bytes) = Among bytes air

module _ (w : Wire) where
  -- The application of driver `i` transmits.
  abbrev pub initiated :
      ℕ
      → (ModemTransmission → ModemTransmission)
      → (ModemTransmission → ModemTransmission)
      → ModemTransmission
      → Group
      → Group
  initiated i modify request orig g =
      let (d, es) = handle_initiate_transmission w modify request (g.driver i) orig in
      record g {
        driver = update g.driver i d;
        air = g.air ++ packets es;
        sent = g.sent ++ transmitted es;
      }

  -- A send or a read of driver `i` ends.
  abbrev pub completed : ℕ → Completion → Group → Group
  completed i c g =
      let es = complete w (g.driver i) c in
      record g { air = g.air ++ packets es; log = g.log ++ logged (id_of g i) (delivered es) }

  pub data Step (g : Group) : Group → Type 0 where
    initiate :
        (i : ℕ) (modify request : ModemTransmission → ModemTransmission) (orig : ModemTransmission)
        → Step g (initiated i modify request orig g)
    poll : (i : ℕ) (c : Completion) → OnAir g.air c → Step g (completed i c g)

  pub data Steps (g : Group) : Group → Type 0 where
    stay : Steps g g
    later : {h k : Group} → Steps g h → Step h k → Steps g k

abbrev pub start : (ℕ → Driver) → Group
start drivers = record { driver = drivers; air = []; sent = []; log = [] }
