-- ===== src/IoExamples/Pty.antt =====
-- pty_example/main.cpp: a pseudo-terminal, whose lines are logged.
use goby3_examples.Base.{Option, none, some}
use goby3_examples.Base.Text.{Text, codes}
use goby3_examples.IoExamples.{or_default}
use goby3_examples.Base.{List, [], ◌∷◌}
use goby3_examples.PubSub.{Subscription}
use goby3_examples.IoExamples.{Mail, Effect, logs_data, on, Launch, pty_thread}

pub record PtyConfig : Type 0 where
  pub port : Option Text

pub record Config : Type 0 where
  pub pty_config : Option PtyConfig

abbrev pub given : Option PtyConfig → PtyConfig
given none = record { port = none }
given (some c) = c

-- `PTYConfigurator`.
unfoldable pub configure : Config → Config
configure cfg =
    let c = given cfg.pty_config in
    record {
      pty_config =
          some (record { port = some (or_default (codes "/tmp/ttygoby3-example") c.port) });
    }

-- The constructors of `PTYDataHandleThread` and `PTYExample`.
unfoldable pub subscriptions : List (Subscription Mail Effect)
subscriptions = on (codes "pty_in") (logs_data (codes "")) ∷ []

unfoldable pub launches : Config → List Launch
launches cfg =
    pty_thread (record { port = (given cfg.pty_config).port; baud = none }) (codes "pty_in")
      (codes "pty_out")
    ∷ []
