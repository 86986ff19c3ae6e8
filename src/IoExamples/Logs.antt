-- ===== src/IoExamples/Logs.antt =====
-- What the applications log of a call of `loop`, through their subscriptions and I/O threads.
use goby3_examples.Base.{ℕ, suc, Option, some, none, List, [], ◌∷◌, ◌++◌, map, each, if◌then◌else◌}
use goby3_examples.Base.Text.{Text, text_eq}
use goby3_examples.PubSub.{Transporter, Publication, Subscription, spread}
use goby3_examples.IoExamples.{
  IoData, Server, Client, server_port, server_addr, Mail, io_data, Effect, log, sent, Launch,
}
use goby3_examples.IoExamples.Threads.{Threads}
use goby3_examples.IoExamples.Carrying.{Lines, carry}
use goby3_examples.IoExamples.Tcp
use goby3_examples.IoExamples.Udp
use goby3_examples.IoExamples.Cobs
use goby3_examples.IoExamples.Cobs.{default_line}

abbrev pub default_client : Client
default_client = record {
  bind_port = none;
  remote_address = some server_addr;
  remote_port = some server_port;
}

abbrev pub udp_client : Client
udp_client = record {
  bind_port = some 0;
  remote_address = some server_addr;
  remote_port = some server_port;
}

-- The data that a group of the log shows.
abbrev pub logged : Text → List Effect → List IoData
logged group [] = []
logged group (log g (io_data d) ∷ es) =
    let rest = logged group es in if text_eq g group then d ∷ rest else rest
logged group (_ ∷ es) = logged group es

abbrev pub line_of : Text → Text
line_of bytes = bytes ++ b'\n' ∷ []

module _ (tr : Transporter) (t : Threads) (lines : Lines) (extra : ℕ) where
  -- What a call of `loop` sets off. The longest chain is a request, as it is sent and as it is
  -- handed in, and its answer likewise: four publications, for
  -- which the fuel is enough, with any extra.
  abbrev pub round :
      List (Subscription Mail Effect) → List Launch → List (Publication Mail) → List Effect
  round subscriptions launches ps =
      each (spread tr subscriptions sent (carry t lines launches) (suc (suc (suc (suc extra))))) ps

  abbrev pub tcp_round : Option Server → List Effect
  tcp_round s =
      round Tcp.subscriptions
        (Tcp.launches (Tcp.configure (record { server = s; client1 = none; client2 = none })))
        (map Tcp.publication Tcp.loop)

  abbrev pub udp_round : Option Server → List Effect
  udp_round s =
      round Udp.subscriptions
        (Udp.launches (Udp.configure (record { server = s; client1 = none; client2 = none })))
        (map Udp.publication Udp.loop)

  abbrev pub cobs_round : Option Server → List Effect
  cobs_round s =
      round Cobs.subscriptions
        (Cobs.launches
          (Cobs.configure (record { server = s; client = none; pty = none; serial = none })))
        (map Cobs.publication Cobs.loop)
