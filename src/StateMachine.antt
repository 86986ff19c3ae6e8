-- ===== src/StateMachine.antt =====
-- src/interprocess/zeromq/state_machine: machine.h (the state chart), subscriber.cpp (the
-- application that owns it) and publisher.cpp (the controller that drives it).
--
-- Boost.Statechart's part is as it documents: an event with no reaction in the current state is
-- dropped, a transition destroys the old state and then constructs the new one, and `terminate`
-- destroys the current state. A constructor publishes a report and prints; a destructor prints.
-- main.cpp of that folder is not built by its CMakeLists.txt, and is left out.
pub mod Reports
use goby3_examples.Base.{ℕ, zero, suc, Option, none, some, List, [], ◌∷◌, ◌++◌}

pub data State : Type 0 where
  on off : State

pub data Event : Type 0 where
  turn_on turn_off : Event

pub data Effect : Type 0 where
  report entering leaving : State → Effect

-- The constructors `On` and `Off`.
pub enter : State → List Effect
enter s = report s ∷ entering s ∷ []

-- The destructors.
pub leave : State → List Effect
leave s = leaving s ∷ []

-- The `reactions` of the two states.
pub reaction : State → Event → Option State
reaction on turn_off = some off
reaction off turn_on = some on
reaction _ _ = none

pub follow : State → Option State → State × List Effect
follow s none = (s, [])
follow s (some t) = (t, leave s ++ enter t)

unfoldable pub process_event : State → Event → State × List Effect
unfolding follow reaction enter leave
process_event s e = follow s (reaction s e)

-- `initiate` enters the initial state of `Machine`.
unfoldable pub initiate : State × List Effect
unfolding enter
initiate = (off, enter off)

unfoldable pub terminate : State → List Effect
unfolding leave
terminate s = leave s

-- The switch on `desired_state` in the subscription's callback.
pub event_for : State → Event
event_for on = turn_on
event_for off = turn_off

pub controls : State → List State → State × List Effect
unfolding process_event event_for
controls s [] = (s, [])
controls s (c ∷ cs) =
    let (t, es) = process_event s (event_for c) in let (u, rest) = controls t cs in (u, es ++ rest)

-- The application: `initialize`, the controls that it receives, and `finalize`.
unfoldable pub session : List State → List Effect
unfolding initiate controls terminate
session cs = let (s, es) = initiate in let (t, rest) = controls s cs in es ++ (rest ++ terminate t)

-- `loop` of the controller: toggle the desired state, and publish it.
unfoldable pub toggle : State → State
toggle on = off
toggle off = on

pub loops : ℕ → State → List State
unfolding toggle
loops zero s = []
loops (suc n) s = toggle s ∷ loops n (toggle s)

-- What the controller publishes in its first rounds; its constructor sets the state to ON.
unfoldable pub controller : ℕ → List State
unfolding loops
controller n = loops n on
