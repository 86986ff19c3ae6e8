-- ===== src/IoExamples/Udp.antt =====
-- udp_example/main.cpp: a server and two clients over datagrams.
use goby3_examples.Base.{Option, none, some, List, [], ◌∷◌}
use goby3_examples.Base.Text.{Text, codes}
use goby3_examples.IoExamples.{
  IoData, Server, Client, server_port, server_addr, or_default, message,
}
use goby3_examples.Base.{map}
use goby3_examples.PubSub.{Publication, Subscription}
use goby3_examples.IoExamples.{
  Mail, Effect, send, publish, logs_data, logs_and, on, Launch, server_thread, client_thread,
  unset_server, unset_client,
}

pub record Config : Type 0 where
  pub server : Option Server
  pub client1 : Option Client
  pub client2 : Option Client

-- `UDPConfigurator`; port 0 asks for any free port.
unfoldable pub configure : Config → Config
configure cfg =
    let client1 : Client =
      or_default
        (record {
          bind_port = some 0;
          remote_address = some server_addr;
          remote_port = some server_port;
        })
        cfg.client1 in
    record {
      server = some (or_default (record { bind_port = some server_port }) cfg.server);
      client1 = some client1;
      client2 = some (or_default client1 cfg.client2);
    }

pub data Group : Type 0 where
  server_out client1_out client2_out : Group

-- The callback for `udp_server_in`.
unfoldable pub on_request : IoData → List (Group × IoData)
on_request request =
    (server_out, record { bytes = codes "Response"; src = none; dest = request.src }) ∷ []

unfoldable pub loop : List (Group × IoData)
loop =
    let udp_data = message (codes "Request") in
    (client1_out, udp_data) ∷ (client2_out, udp_data) ∷ []

abbrev pub group_name : Group → Text
group_name server_out = codes "udp_server_out"
group_name client1_out = codes "udp_client1_out"
group_name client2_out = codes "udp_client2_out"

abbrev pub publication : Group × IoData → Publication Mail
publication (g, d) = publish (group_name g) d

-- The constructor of `UDPExample`: its subscriptions, and then its threads.
unfoldable pub subscriptions : List (Subscription Mail Effect)
unfolding on_request
subscriptions =
    on (codes "udp_server_in")
      (logs_and (codes "server") (λ d. map (λ x. send (publication x)) (on_request d)))
    ∷ on (codes "udp_client1_in") (logs_data (codes "client1"))
    ∷ on (codes "udp_client2_in") (logs_data (codes "client2"))
    ∷ []

unfoldable pub launches : Config → List Launch
launches cfg =
    server_thread (or_default unset_server cfg.server) (codes "udp_server_in")
      (codes "udp_server_out")
    ∷ client_thread (or_default unset_client cfg.client1) (codes "udp_client1_in")
        (codes "udp_client1_out")
    ∷ client_thread (or_default unset_client cfg.client2) (codes "udp_client2_in")
        (codes "udp_client2_out")
    ∷ []
