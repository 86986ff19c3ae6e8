-- ===== src/Hold.antt =====
-- src/interprocess/zeromq/hold: a publisher that publishes its initial state once, as soon as it is
-- constructed, and a subscriber that is to receive it.
--
-- Goby holds what is published until all the programs that are required have started. What it does
-- is the record `Bus`: `publish` and `release` give what reaches the subscribers at that time.
-- `BusLaws` is what Goby documents.
pub mod Once
use goby3_examples.Base.{◌≡◌, Bool, true, false, Option, none, some, List, [], ◌∷◌, ◌++◌}
use goby3_examples.Base.Text.{Text, codes}
use goby3_examples.PubSub.{interprocess, Publication, Subscription}

-- `Initial` of init.proto.
pub data State : Type 0 where
  off on : State

pub record Initial : Type 0 where
  pub state : State

abbrev pub Mail : Type 0
Mail = Publication Initial

pub record Bus : Type 1 where
  pub Held : Type 0
  pub hold_state : Held → Bool
  pub publish : Mail → Held → Held × List Mail
  pub release : Held → Held × List Mail

-- While the hold is on, what is published is queued; its release lets the queue go, in order, and
-- turns it off.
pub record BusLaws (b : Bus) : Type 0 where
  pub queued : b.Held → List Mail
  pub holds :
      (p : Mail) (h : b.Held)
      → b.hold_state h ≡ true
      → (b.hold_state (b.publish p h).0 ≡ true)
        × (queued (b.publish p h).0 ≡ queued h ++ p ∷ [])
        × ((b.publish p h).1 ≡ [])
  pub releases :
      (h : b.Held)
      → (b.hold_state (b.release h).0 ≡ false)
        × (queued (b.release h).0 ≡ [])
        × ((b.release h).1 ≡ queued h)

abbrev pub initial_state : Mail
initial_state = record {
  layer = interprocess;
  group = codes "init";
  message = record { state = on };
}

abbrev pub hold_text : Bool → Text
hold_text true = codes "Hold is on"
hold_text false = codes "Hold is off"

module _ (b : Bus) where
  -- The constructor of `HoldPublisher`.
  unfoldable pub hold_publisher : b.Held → b.Held × List Mail
  hold_publisher h = b.publish initial_state h

  -- `loop` prints the state of the hold.
  unfoldable pub loop : b.Held → Text
  loop h = hold_text (b.hold_state h)

pub data Printed : Type 0 where
  received_initial_state : State → Printed

pub on_init : Initial → Option (List Printed)
on_init init = some (received_initial_state init.state ∷ [])

-- The constructor of `HoldSubscriber`.
unfoldable pub hold_subscriber : List (Subscription Initial Printed)
unfolding on_init
hold_subscriber = record { layer = interprocess; group = codes "init"; callback = on_init } ∷ []
