-- ===== src/Examples/Pipeline.antt =====
-- A receiver that is read, then not, then read again, and a line each time.
use goby3_examples.Base.{Option, none, some, true, false, List, [], ◌∷◌}
use goby3_examples.Base.Text.{codes}
use goby3_examples.Gps.{number, nan, GpsPosition}
use goby3_examples.Gps.Threads.{Event, line, controller}

-- DCCL, for which NaN is outside the bounds.
abbrev carry : GpsPosition → Option GpsPosition
carry p = elim p.latitude [ number z ↦ some p | nan ↦ none ]

abbrev events : List Event
events =
    line (codes "$GPGGA,1")
    ∷ controller false
    ∷ line (codes "$GPGGA,2")
    ∷ controller true
    ∷ line (codes "$GPGGA,3")
    ∷ []
