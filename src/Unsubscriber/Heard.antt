-- ===== src/Unsubscriber/Heard.antt =====
-- What the application receives of the reports that other vehicles publish, while it subscribes and
-- unsubscribes. The intervehicle layer is Goby's: the record `Link`, with the two laws that the
-- program relies on.
use goby3_examples.Base.{
  ℕ, suc, ◌%◌, ◌≡◌, refl, Bool, true, false, List, [], ◌∷◌, ◌++◌, ◌==◌, if◌then◌else◌, arith,
}
use goby3_examples.LogControl.{NavigationReport}
use goby3_examples.Unsubscriber.{Call, subscribe_nav, unsubscribe_nav, loop}

pub record Link : Type 1 where
  pub State : Type 0
  pub hears : State → Bool
  pub subscribe : State → State
  pub unsubscribe : State → State

pub record LinkLaws (l : Link) : Type 0 where
  pub subscribed : (s : l.State) → l.hears (l.subscribe s) ≡ true
  pub unsubscribed : (s : l.State) → l.hears (l.unsubscribe s) ≡ false

-- A round of the application, or a report that reaches its vehicle.
pub data Event : Type 0 where
  turn : Event
  report : NavigationReport → Event

-- The callback of the subscription.
unfoldable pub on_nav : NavigationReport → List NavigationReport
on_nav r = r ∷ []

-- The reports that come after an odd number of turns, counted on from a number.
abbrev pub at_odd : ℕ → List Event → List NavigationReport
at_odd n [] = []
at_odd n (turn ∷ es) = at_odd (suc n) es
at_odd n (report r ∷ es) = let rest = at_odd n es in if n % 2 == 1 then r ∷ rest else rest

module _ (l : Link) where
  pub called : List Call → l.State → l.State
  called [] s = s
  called (subscribe_nav ∷ cs) s = called cs (l.subscribe s)
  called (unsubscribe_nav ∷ cs) s = called cs (l.unsubscribe s)

  -- The reports that the application prints, from a value of `subscribed_` on.
  pub received : List Event → Bool → l.State → List NavigationReport
  received [] field s = []
  received (turn ∷ es) field s =
      let (field', calls) = loop field in received es field' (called calls s)
  received (report r ∷ es) field s = (if l.hears s then on_nav r else []) ++ received es field s

  module _ (laws : LinkLaws l) where
    received-from :
        (es : List Event) (n : ℕ) (field : Bool) (s : l.State)
        → l.hears s ≡ field
        → field ≡ (n % 2 == 1)
        → received es field s ≡ at_odd n es
    unfolding received called loop on_nav
    received-from [] n field s h p = refl
    received-from (turn ∷ es) n true s h p =
        received-from es (suc n) false (l.unsubscribe s) (laws.unsubscribed s) (ground arith)
    received-from (turn ∷ es) n false s h p =
        received-from es (suc n) true (l.subscribe s) (laws.subscribed s) (ground arith)
    received-from (report r ∷ es) n true s h p =
        rw (h, received-from es n true s h p) (ground arith)
    received-from (report r ∷ es) n false s h p =
        rw (h, received-from es n false s h p) (ground arith)

    -- Over an intervehicle layer that keeps to `LinkLaws` and has no subscription at the start:
    -- whatever rounds and reports come, in any order, the application prints exactly the reports
    -- that come after an odd number of its rounds, each once and in order.
    pub received-at_odd :
        (es : List Event) (s : l.State) → l.hears s ≡ false → received es false s ≡ at_odd 0 es
    received-at_odd es s h = received-from es 0 false s h refl
