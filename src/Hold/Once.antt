-- ===== src/Hold/Once.antt =====
-- The initial state reaches a subscriber once, when the hold is released.
use goby3_examples.Base.{
  append-nil, ◌≡◌, refl, Bool, true, false, List, [], ◌∷◌, ◌++◌, each, if◌then◌else◌,
}
use goby3_examples.Base.Text.{Text, text_eq}
use goby3_examples.PubSub.{interprocess, Transporter, TransporterLaws, deliver}
use goby3_examples.Hold.{
  on, Mail, Bus, BusLaws, initial_state, hold_text, hold_publisher, loop, Printed,
  received_initial_state, hold_subscriber,
}

-- What happens after the publisher's construction: one of its rounds, or a release of the hold.
pub data Turn : Type 0 where
  round released : Turn

abbrev pub is_released : List Turn → Bool
is_released [] = false
is_released (round ∷ ts) = is_released ts
is_released (released ∷ ts) = true

-- What the publisher is to print, after a release or before one.
abbrev pub texts : Bool → List Turn → List Text
texts before [] = []
texts before (round ∷ ts) = hold_text before ∷ texts before ts
texts before (released ∷ ts) = texts false ts

module _ (b : Bus) where
  -- What the publisher prints, and what reaches the subscribers, over some turns.
  unfoldable pub turns : List Turn → b.Held → List Text × List Mail
  turns [] h = ([], [])
  turns (round ∷ ts) h = let (ls, ms) = turns ts h in (loop b h ∷ ls, ms)
  turns (released ∷ ts) h =
      let (h', out) = b.release h in let (ls, ms) = turns ts h' in (ls, out ++ ms)

  module _ (bl : BusLaws b) where
    nothing_more : (r : Bool) (ms : List Mail) → ms ++ (if r then [] else []) ≡ ms
    nothing_more true ms = append-nil ms
    nothing_more false ms = append-nil ms

    turns-eq :
        (ts : List Turn) (h : b.Held) (before : Bool)
        → b.hold_state h ≡ before
        → turns ts h ≡ (texts before ts, if is_released ts then bl.queued h else [])
    unfolding turns loop
    turns-eq [] h before e = refl
    turns-eq (round ∷ ts) h before e = rw (turns-eq ts h before e, e) refl
    turns-eq (released ∷ ts) h before e =
        let (off, empty, out) = bl.releases h in
        rw (turns-eq ts (b.release h).0 false off, empty, out)
          (rw (nothing_more (is_released ts) (bl.queued h)) refl)

module _ (tr : Transporter) (b : Bus) where
  -- The publisher from its construction on, and what a subscriber prints of what reaches it.
  abbrev pub session : List Turn → b.Held → List Text × List Printed
  session ts h =
      let (h', out) = hold_publisher b h in
      let (ls, ms) = turns b ts h' in (ls, each (deliver tr hold_subscriber) (out ++ ms))

  delivered_once :
      TransporterLaws tr
      → (r : Bool)
      → each (deliver tr hold_subscriber) (if r then initial_state ∷ [] else [])
        ≡ (if r then received_initial_state on ∷ [] else [])
  unfolding deliver hold_subscriber text_eq
  delivered_once laws true = rw (laws.same interprocess) refl
  delivered_once laws false = refl

  -- Over a transporter and a bus that behave as Goby documents, with the hold on and nothing queued
  -- when the publisher starts: whatever rounds and releases follow, the subscriber prints the initial
  -- state ON once if the hold is ever released, however often, and nothing if not; and the publisher
  -- prints in each round that the hold is on, up to the first release, and from then on that it is
  -- off.
  pub session-once :
      (laws : TransporterLaws tr) (bl : BusLaws b) (ts : List Turn) (h : b.Held)
      → b.hold_state h ≡ true
      → bl.queued h ≡ []
      → session ts h
        ≡ (texts true ts, if is_released ts then received_initial_state on ∷ [] else [])
  unfolding hold_publisher
  session-once laws bl ts h e q =
      let (held, queue, out) = bl.holds initial_state h e in
      rw (turns-eq b bl ts (b.publish initial_state h).0 true held, queue, q, out)
        (rw (delivered_once laws (is_released ts)) refl)
