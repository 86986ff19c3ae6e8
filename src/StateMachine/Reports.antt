-- ===== src/StateMachine/Reports.antt =====
-- What the state machine reports.
use goby3_examples.Base.{ℕ, zero, suc, ◌≡◌, refl, ◌∙◌, ap, List, [], ◌∷◌, ◌++◌}
use goby3_examples.StateMachine.{
  State, on, off, Effect, report, entering, leaving, controls, session, terminate, controller,
  loops,
}

abbrev reported : Effect → List State
reported (report s) = s ∷ []
reported _ = []

-- The states that a list of effects publishes.
abbrev pub reports : List Effect → List State
reports [] = []
reports (e ∷ es) = reported e ++ reports es

-- A list of states without those that repeat the one before.
abbrev pub changes : State → List State → List State
changes s [] = []
changes on (on ∷ cs) = changes on cs
changes on (off ∷ cs) = off ∷ changes off cs
changes off (on ∷ cs) = on ∷ changes on cs
changes off (off ∷ cs) = changes off cs

-- What is done in a state that has been entered, on the way through others: each is left before the
-- next is reported and entered, and the last one is left.
abbrev pub trace : State → List State → List Effect
trace s [] = leaving s ∷ []
trace s (t ∷ ts) = leaving s ∷ report t ∷ entering t ∷ trace t ts

controls-trace :
    (s : State) (cs : List State)
    → (controls s cs).1 ++ terminate (controls s cs).0 ≡ trace s (changes s cs)
unfolding controls terminate
controls-trace on [] = refl
controls-trace off [] = refl
controls-trace on (on ∷ cs) = controls-trace on cs
controls-trace on (off ∷ cs) =
    ap (λ es. leaving on ∷ report off ∷ entering off ∷ es) (controls-trace off cs)
controls-trace off (on ∷ cs) =
    ap (λ es. leaving off ∷ report on ∷ entering on ∷ es) (controls-trace on cs)
controls-trace off (off ∷ cs) = controls-trace off cs

-- Through any controls, the application reports and enters OFF first, and then goes through the
-- states that the controls ask for, without those that repeat the state that it is in: each state is
-- left before the next is reported and entered, the last one is left at the end, and nothing else
-- is done.
pub session-trace :
    (cs : List State) → session cs ≡ report off ∷ entering off ∷ trace off (changes off cs)
unfolding session
session-trace cs = ap (λ es. report off ∷ entering off ∷ es) (controls-trace off cs)

reports-controls :
    (s : State) (cs : List State)
    → reports ((controls s cs).1 ++ terminate (controls s cs).0) ≡ changes s cs
unfolding controls terminate
reports-controls on [] = refl
reports-controls off [] = refl
reports-controls on (on ∷ cs) = reports-controls on cs
reports-controls on (off ∷ cs) = ap (λ r. off ∷ r) (reports-controls off cs)
reports-controls off (on ∷ cs) = ap (λ r. on ∷ r) (reports-controls on cs)
reports-controls off (off ∷ cs) = reports-controls off cs

-- The reports are OFF and then the controls with the redundant ones left out.
pub reports-session : (cs : List State) → reports (session cs) ≡ off ∷ changes off cs
unfolding session
reports-session cs = ap (λ r. off ∷ r) (reports-controls off cs)

changes-loops : (n : ℕ) (s : State) → changes s (loops n s) ≡ loops n s
unfolding loops
changes-loops zero on = refl
changes-loops zero off = refl
changes-loops (suc n) on = ap (λ r. off ∷ r) (changes-loops n off)
changes-loops (suc n) off = ap (λ r. on ∷ r) (changes-loops n on)

-- Driven by its controller for one round or more, the machine reports just what the controller
-- asks for: the controller's first control is redundant, and takes the place of the first report.
pub reports-controller : (n : ℕ) → reports (session (controller (suc n))) ≡ controller (suc n)
unfolding controller loops
reports-controller n =
    reports-session (controller (suc n)) ∙ ap (λ r. off ∷ r) (changes-loops n off)
