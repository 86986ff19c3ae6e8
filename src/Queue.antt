-- ===== src/Queue.antt =====
-- src/components/acomms/queue: programs that push messages to a queue and loop the transmission back.
--
-- The queue manager is Goby's `goby::acomms::QueueManager`. It is the record `QueueManager` of the
-- operations that the programs call, and `Laws` is what they rely on. What a program prints of its
-- messages is the list of its outputs, and the fixed texts are left out; a run without a result has
-- read `frame(0)` of a transmission that has none, which Protobuf ends by an abort.
pub mod QueueSimple
pub mod Multimessage
pub mod OnDemand
pub mod Loopback
pub mod Counting
use goby3_examples.Base.{
  ℕ, ◌-◌, ◌≡◌, ◌≢◌, Option, none, some, List, [], ◌∷◌, ◌++◌, length, Among, leb, ◌≤◌, true, false,
}
use goby3_examples.Base.Int.{ℤ, pos}
use goby3_examples.Base.Text.{Text, codes}
use goby3_examples.Modem.{ModemTransmission, unset}

-- The message of simple.proto.
pub record Simple : Type 0 where
  pub telegram : Text

pub record QueueManagerConfig : Type 0 where
  pub modem_id : ℤ
  pub message_entry : List Text

-- `handle_modem_receive` gives the messages that it hands to `signal_receive`.
pub record QueueManager : Type 1 where
  pub State : Type 0
  pub init : State
  pub set_cfg : QueueManagerConfig → State → State
  pub push_message : Simple → State → State
  pub handle_modem_data_request : State → ModemTransmission → State × ModemTransmission
  pub handle_modem_receive : State → ModemTransmission → State × List Simple

-- The messages from the front that fit into so many bytes together.
abbrev pub fitting : (Simple → ℕ) → ℕ → List Simple → List Simple
fitting size room [] = []
fitting size room (m ∷ ms) =
    let rest = fitting size (room - size m) ms in
    elim (leb (size m) room) [ true ↦ m ∷ rest | false ↦ [] ]

-- A message of a configured type is queued behind the others. A request for one frame is given the
-- messages that fit into it, and a transmission that is received yields the messages it carries.
-- `Simple` takes telegrams of up to 30 characters, and no more than 32 bytes.
pub record Laws (q : QueueManager) : Type 0 where
  pub names : q.State → List Text
  pub contents : q.State → List Simple
  pub carried : ModemTransmission → List Simple
  pub size : Simple → ℕ
  pub init-contents : contents q.init ≡ []
  pub set_cfg-names :
      (cfg : QueueManagerConfig) (s : q.State) → names (q.set_cfg cfg s) ≡ cfg.message_entry
  pub set_cfg-contents :
      (cfg : QueueManagerConfig) (s : q.State) → contents (q.set_cfg cfg s) ≡ contents s
  pub push-names : (m : Simple) (s : q.State) → names (q.push_message m s) ≡ names s
  pub push-contents :
      (m : Simple) (s : q.State)
      → Among (codes "Simple") (names s)
      → length m.telegram ≤ 30
      → contents (q.push_message m s) ≡ contents s ++ m ∷ []
  pub request-carried :
      (s : q.State) (t : ModemTransmission) (room : ℕ)
      → t.max_frame_bytes ≡ some (pos room)
      → t.max_num_frames ≡ some 1
      → carried (q.handle_modem_data_request s t).1 ≡ fitting size room (contents s)
  pub receive-carried :
      (s : q.State) (t : ModemTransmission) → (q.handle_modem_receive s t).1 ≡ carried t
  pub carried-frame : (t : ModemTransmission) → carried t ≢ [] → t.frame ≢ []
  pub size-bound : (m : Simple) → length m.telegram ≤ 30 → size m ≤ 32

pub data Output (State : Type 0) : Type 0 where
  pushing received : Simple → Output State
  contents : State → Output State
  requested : ModemTransmission → Output State
  data_as_hex : Text → Output State

-- The messages that the outputs show as pushed, and as received.
abbrev pub pushes : {State : Type 0} → List (Output State) → List Simple
pushes [] = []
pushes (pushing m ∷ os) = m ∷ pushes os
pushes (_ ∷ os) = pushes os

abbrev pub receptions : {State : Type 0} → List (Output State) → List Simple
receptions [] = []
receptions (received m ∷ os) = m ∷ receptions os
receptions (_ ∷ os) = receptions os

-- `frame(0)`.
abbrev pub first_frame : List Text → Option Text
first_frame [] = none
first_frame (f ∷ fs) = some f
