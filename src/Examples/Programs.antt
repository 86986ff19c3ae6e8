-- ===== src/Examples/Programs.antt =====
-- The small programs, at arguments that they are started with.
use goby3_examples.Base.{arith, ◌≡◌, true, false, some, List, [], ◌∷◌, length}
use goby3_examples.Base.Text.{codes}
use goby3_examples.Modem.{remus_lbl_ranging, narrowband_lbl_ranging}
use goby3_examples.Amac.{calls}
use goby3_examples.Amac.Cycle.{IsOrdered, calls-IsOrdered}
use goby3_examples.WhoiRanging
use goby3_examples.WhoiRanging.{remus, narrowband, start, announce, transmit, our_id, request_for}
use goby3_examples.WhoiRanging.Cycle.{IsRun, main-IsRun}
use goby3_examples.StateMachine.{on, off, report, entering, session, controller}
use goby3_examples.StateMachine.Reports.{trace, changes, reports, session-trace, reports-controller}

calls-IsOrdered_example : IsOrdered false (calls 10)
calls-IsOrdered_example = calls-IsOrdered 10

main-IsRun_example :
    (es fs : List WhoiRanging.Effect) × (WhoiRanging.main length
        (codes "w" ∷ codes "/dev/ttyS0" ∷ codes "remus" ∷ codes "300" ∷ [])
        700
      ≡ some es)
    × IsRun 700 remus_lbl_ranging (remus 50 15 3) (codes "/dev/ttyS0") es
    × (WhoiRanging.main length
          (codes "w" ∷ codes "/dev/ttyS0" ∷ codes "narrowband" ∷ codes "300" ∷ [])
          700
        ≡ some fs)
    × IsRun 700 narrowband_lbl_ranging
        (narrowband 20 26000 5 5 (25000 ∷ []) true 3)
        (codes "/dev/ttyS0")
        fs
main-IsRun_example =
    main-IsRun length (codes "w") (codes "/dev/ttyS0") (codes "300") [] 700 (omega arith)

session-trace_example :
    session (on ∷ on ∷ off ∷ [])
    ≡ report off ∷ entering off ∷ trace off (changes off (on ∷ on ∷ off ∷ []))
session-trace_example = session-trace (on ∷ on ∷ off ∷ [])

reports-controller_example : reports (session (controller 4)) ≡ controller 4
reports-controller_example = reports-controller 3
