-- ===== src/IoExamples/Answers.antt =====
-- What the groups of the log show of a call of `loop`, with the clients at their defaults.
use goby3_examples.Base.{
  ℕ, ◌≡◌, refl, sym, ◌∙◌, inl, inr, Option, some, none, List, [], ◌∷◌, if◌then◌else◌,
}
use goby3_examples.Base.Text.{Text, codes, text_eq}
use goby3_examples.PubSub.{Transporter, TransporterLaws}
use goby3_examples.IoExamples.{
  IoData, Server, Client, server_port, server_addr, or_default, message, Effect,
}
use goby3_examples.IoExamples.Threads.{Threads, IsConnected, ThreadLaws}
use goby3_examples.IoExamples.Carrying.{Lines, LineLaws}
use goby3_examples.IoExamples.Responses.{is_default}
use goby3_examples.IoExamples.Tcp
use goby3_examples.IoExamples.Udp
use goby3_examples.IoExamples.Cobs
use goby3_examples.IoExamples.Cobs.{default_line}
use goby3_examples.IoExamples.Responses.{port_cases}
use goby3_examples.IoExamples.Logs.{
  default_client, udp_client, line_of, tcp_round, udp_round, cobs_round, logged,
}
use goby3_examples.IoExamples.Connected.{
  request_from, tcp_connected, udp_connected, cobs_connected, refused_all,
}

-- The data on the log's groups for the server and for the two clients.
abbrev pub logs_of : List Effect → List IoData × List IoData × List IoData
logs_of es = (logged (codes "server") es, logged (codes "client1") es, logged (codes "client2") es)

-- The same for the one client of the COBS application, and for its two ends of a serial line.
abbrev pub cobs_logs_of : List Effect → List IoData × List IoData × List IoData × List IoData
cobs_logs_of es = (
  logged (codes "server") es,
  logged (codes "client") es,
  logged (codes "pty") es,
  logged (codes "serial") es,
)

module _ (tr : Transporter) (t : Threads) (lines : Lines) (laws : TransporterLaws tr)
    (tl : ThreadLaws t) (ll : LineLaws lines) (extra : ℕ) where
  -- The server that a configurator makes of the user's.
  abbrev served : Option Server → Server
  served s = or_default (record { bind_port = some server_port }) s

  connected :
      (s : Option Server) (c : Client)
      → c.remote_address ≡ some server_addr
      → c.remote_port ≡ some server_port
      → (served s).bind_port ≡ some server_port
      → IsConnected (served s).bind_port c
  connected s c a p b = record { same_address = a; same_port = p ∙ sym b; bound = λ n. cc }

  tcp_served :
      (s : Option Server)
      → tcp_round tr t lines extra s ≡ tcp_round tr t lines extra (some (served s))
  unfolding Tcp.configure
  tcp_served none = refl
  tcp_served (some s) = refl

  udp_served :
      (s : Option Server)
      → udp_round tr t lines extra s ≡ udp_round tr t lines extra (some (served s))
  unfolding Udp.configure
  udp_served none = refl
  udp_served (some s) = refl

  cobs_served :
      (s : Option Server)
      → cobs_round tr t lines extra s ≡ cobs_round tr t lines extra (some (served s))
  unfolding Cobs.configure
  cobs_served none = refl
  cobs_served (some s) = refl

  abbrev pub two_requests : Text → Text → List IoData × List IoData × List IoData
  two_requests request response = (
    request_from tr t lines laws tl ll extra 1 request
        ∷ request_from tr t lines laws tl ll extra 2 request
        ∷ [],
    message response ∷ [],
    message response ∷ [],
  )

  -- Over a transporter, I/O threads and serial lines that behave as Goby documents, with the clients
  -- and the serial line at their defaults, however many publications a chain of them may set off
  -- beyond four: if the user leaves the server, or its port, at its
  -- default, a call of `loop` has the TCP and the UDP application log one request from each client
  -- and one response at each client, and the COBS application one request and one response; if not,
  -- none of these is logged. In either case the COBS application logs what it sent to the
  -- pseudo-terminal and to the serial port at the other end of the line.
  pub loop-logs :
      (s : Option Server)
      → let request = codes "Request" in
        let response = codes "Response" in
        (logs_of (tcp_round tr t lines extra s) ≡ (
          if is_default s then two_requests (line_of request) (line_of response) else ([], [], [])))
        × (logs_of (udp_round tr t lines extra s)
            ≡ (if is_default s then two_requests request response else ([], [], [])))
        × (cobs_logs_of (cobs_round tr t lines extra s) ≡ (
          if is_default s then request_from tr t lines laws tl ll extra 1 request ∷ [] else [],
          if is_default s then message response ∷ [] else [],
          message (codes "ToPTY") ∷ [],
          message (codes "ToSerial") ∷ [],
        ))
  unfolding text_eq
  loop-logs s = elim (port_cases s) [
    | inl (e, b) ↦
        let tcp =
          tcp_connected tr t lines laws tl ll extra (served s)
            (connected s default_client refl refl b) in
        let udp =
          udp_connected tr t lines laws tl ll extra (served s)
            (connected s udp_client refl refl b) in
        let cobs =
          cobs_connected tr t lines laws tl ll extra (served s)
            (connected s default_client refl refl b) in
        rw (tcp_served s, udp_served s, cobs_served s, tcp, udp, cobs, e) (refl, refl, refl)
    | inr (e, ne) ↦
        let (tcp, udp, cobs) = refused_all tr t lines laws tl ll extra (served s) ne in
        rw (tcp_served s, udp_served s, cobs_served s, tcp, udp, cobs, e) (refl, refl, refl)
  ]
