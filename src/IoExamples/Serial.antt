-- ===== src/IoExamples/Serial.antt =====
-- serial_example/main.cpp: a serial port, whose lines are logged. It has no configurator.
use goby3_examples.Base.{Option, List, [], ◌∷◌}
use goby3_examples.Base.Text.{codes}
use goby3_examples.PubSub.{Subscription}
use goby3_examples.IoExamples.{
  Line, Mail, Effect, logs_data, on, or_default, Launch, serial_thread, unset_line,
}

pub record Config : Type 0 where
  pub serial : Option Line

-- The constructors of `SerialDataHandleThread` and `SerialExample`.
unfoldable pub subscriptions : List (Subscription Mail Effect)
subscriptions = on (codes "serial_in") (logs_data (codes "")) ∷ []

unfoldable pub launches : Config → List Launch
launches cfg =
    serial_thread (or_default unset_line cfg.serial) (codes "serial_in") (codes "serial_out") ∷ []
