-- ===== src/IoExamples/Cobs.antt =====
-- cobs_example/main.cpp: a TCP server and client, and a serial port on a pseudo-terminal.
use goby3_examples.Base.{Option, none, some, List, [], ◌∷◌}
use goby3_examples.Base.Text.{Text, codes}
use goby3_examples.IoExamples.{
  IoData, Server, Client, server_port, server_addr, or_default, message,
}
use goby3_examples.Base.{map}
use goby3_examples.PubSub.{Publication, Subscription}
use goby3_examples.IoExamples.{
  Line, Mail, Effect, send, publish, logs_data, logs_and, logs_event, on, Launch, server_thread,
  client_thread, pty_thread, serial_thread, unset_server, unset_client, unset_line,
}

pub record Config : Type 0 where
  pub server : Option Server
  pub client : Option Client
  pub pty : Option Line
  pub serial : Option Line

abbrev pub default_line : Line
default_line = record { port = some (codes "/tmp/ttygoby3test"); baud = some 115200 }

-- `TCPConfigurator` of this example.
unfoldable pub configure : Config → Config
configure cfg = record {
  server = some (or_default (record { bind_port = some server_port }) cfg.server);
  client = some (
      or_default
        (record {
          bind_port = none;
          remote_address = some server_addr;
          remote_port = some server_port;
        })
        cfg.client);
  pty = some (or_default default_line cfg.pty);
  serial = some (or_default default_line cfg.serial);
}

pub data Group : Type 0 where
  server_out client_out serial_out pty_out : Group

-- The callback for `tcp_server_in`.
unfoldable pub on_request : IoData → List (Group × IoData)
on_request request =
    (server_out, record { bytes = codes "Response"; src = none; dest = request.src }) ∷ []

unfoldable pub loop : List (Group × IoData)
loop =
    (client_out, message (codes "Request"))
    ∷ (serial_out, message (codes "ToPTY"))
    ∷ (pty_out, message (codes "ToSerial"))
    ∷ []

abbrev pub group_name : Group → Text
group_name server_out = codes "tcp_server_out"
group_name client_out = codes "tcp_client_out"
group_name serial_out = codes "serial_out"
group_name pty_out = codes "pty_out"

abbrev pub publication : Group × IoData → Publication Mail
publication (g, d) = publish (group_name g) d

-- The constructor of this example's `TCPExample`: its subscriptions, and then its threads.
unfoldable pub subscriptions : List (Subscription Mail Effect)
unfolding on_request
subscriptions =
    on (codes "tcp_server_in")
      (logs_and (codes "server") (λ d. map (λ x. send (publication x)) (on_request d)))
    ∷ on (codes "tcp_server_in") (logs_event (codes "server"))
    ∷ on (codes "tcp_client_in") (logs_data (codes "client"))
    ∷ on (codes "serial_in") (logs_data (codes "serial"))
    ∷ on (codes "pty_in") (logs_data (codes "pty"))
    ∷ []

unfoldable pub launches : Config → List Launch
launches cfg =
    server_thread (or_default unset_server cfg.server) (codes "tcp_server_in")
      (codes "tcp_server_out")
    ∷ client_thread (or_default unset_client cfg.client) (codes "tcp_client_in")
        (codes "tcp_client_out")
    ∷ pty_thread (or_default unset_line cfg.pty) (codes "pty_in") (codes "pty_out")
    ∷ serial_thread (or_default unset_line cfg.serial) (codes "serial_in") (codes "serial_out")
    ∷ []
