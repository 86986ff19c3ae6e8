-- ===== src/Examples/Unsubscriber.antt =====
-- A report before the first round, one after it, and one after the second.
use goby3_examples.Base.{◌≡◌, refl, Bool, true, false, List, [], ◌∷◌}
use goby3_examples.Base.Int.{pos}
use goby3_examples.LogControl.{NavigationReport}
use goby3_examples.Unsubscriber.Heard.{
  Link, LinkLaws, Event, turn, report, received, received-at_odd,
}

-- A layer whose state is whether there is a subscription.
abbrev link : Link
link = record { State = Bool; hears = λ s. s; subscribe = λ s. true; unsubscribe = λ s. false }

link_laws : LinkLaws link
link_laws = record { subscribed = λ s. refl; unsubscribed = λ s. refl }

abbrev at : NavigationReport
at = record { x = pos 100; y = pos 200; z = pos 0 }

abbrev events : List Event
events = report at ∷ turn ∷ report at ∷ turn ∷ report at ∷ []

received-at_odd_example : received link events false false ≡ at ∷ []
received-at_odd_example = received-at_odd link link_laws events false refl
