-- ===== src/Unsubscriber.antt =====
-- src/intervehicle/unsubscriber/unsubscriber.cpp: an application that subscribes and unsubscribes
-- in turn. What it does to the intervehicle layer is a list of calls. What its callbacks for notices
-- print is in Notices.
pub mod Turns
pub mod Heard
use goby3_examples.Base.{ℕ, zero, suc, Bool, true, false, List, [], ◌∷◌}

pub data Call : Type 0 where
  subscribe_nav unsubscribe_nav : Call

-- The field `subscribed_`, false at first, and the calls made.
unfoldable pub subscribe : Bool × List Call
subscribe = (true, subscribe_nav ∷ [])

unfoldable pub unsubscribe : Bool × List Call
unsubscribe = (false, unsubscribe_nav ∷ [])

unfoldable pub loop : Bool → Bool × List Call
unfolding subscribe unsubscribe
loop false = subscribe
loop true = unsubscribe
