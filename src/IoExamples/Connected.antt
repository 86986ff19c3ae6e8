-- ===== src/IoExamples/Connected.antt =====
-- What a call of `loop` leaves in the log, if the clients aim at the server, and if they do not.
use goby3_examples.Base.{
  ℕ, ◌≡◌, refl, sym, ◌≢◌, ◌∙◌, true, Option, some, none, List, [], ◌∷◌, ◌++◌, arith,
}
use goby3_examples.Base.Text.{Text, codes, text_eq}
use goby3_examples.PubSub.{interthread, Transporter, TransporterLaws, deliver, spread}
use goby3_examples.IoExamples.{
  IoData, Server, Client, server_port, message, io_data, Effect, log, send, publish,
}
use goby3_examples.IoExamples.Threads.{Threads, IsConnected, ThreadLaws}
use goby3_examples.IoExamples.Carrying.{Lines, LineLaws}
use goby3_examples.IoExamples.Tcp
use goby3_examples.IoExamples.Udp
use goby3_examples.IoExamples.Cobs
use goby3_examples.IoExamples.Cobs.{default_line}
use goby3_examples.IoExamples.Logs.{
  default_client, udp_client, line_of, tcp_round, udp_round, cobs_round,
}

module _ (tr : Transporter) (t : Threads) (lines : Lines) (laws : TransporterLaws tr)
    (tl : ThreadLaws t) (ll : LineLaws lines) (extra : ℕ) where
  abbrev pub request_from : ℕ → Text → IoData
  request_from i bytes = record { bytes = bytes; src = some (tl.source i); dest = none }

  abbrev pub answer_to : ℕ → Text → IoData
  answer_to i bytes = record { bytes = bytes; src = none; dest = some (tl.source i) }

  -- What one client's request leaves in the log.
  abbrev pub answered : ℕ → Text → Text → Text → Text → List Effect
  answered i server_out client request response =
      log (codes "server") (io_data (request_from i request))
      ∷ send (publish server_out (answer_to i response))
      ∷ log client (io_data (message response))
      ∷ []

  abbrev pub crossed : List Effect
  crossed =
      log (codes "pty") (io_data (message (codes "ToPTY")))
      ∷ log (codes "serial") (io_data (message (codes "ToSerial")))
      ∷ []

  heard_here : tr.hears interthread interthread ≡ true
  heard_here = laws.same interthread

  over_line : (d : IoData) → lines.crosses default_line default_line d ≡ message d.bytes ∷ []
  over_line d = ll.joined default_line default_line (codes "/tmp/ttygoby3test") d refl refl

  module _ (p : Option ℕ) (c : Client) (ok : IsConnected p c) where
    arrives : (i : ℕ) (bytes : Text) → t.to_server p i c (message bytes) ≡ request_from i bytes ∷ []
    arrives i bytes = tl.arrives p i c (message bytes) ok

    returns : (i : ℕ) (bytes : Text) → t.to_client p i c (answer_to i bytes) ≡ message bytes ∷ []
    returns i bytes = tl.returns p i c (answer_to i bytes) ok refl

    not_second : (bytes : Text) → t.to_client p 2 c (answer_to 1 bytes) ≡ []
    not_second bytes = tl.elsewhere p 2 1 c (answer_to 1 bytes) refl (λ e. omega (arith, e))

    not_first : (bytes : Text) → t.to_client p 1 c (answer_to 2 bytes) ≡ []
    not_first bytes = tl.elsewhere p 1 2 c (answer_to 2 bytes) refl (λ e. omega (arith, e))

  pub tcp_connected :
      (s : Server)
      → IsConnected s.bind_port default_client
      → let request = line_of (codes "Request") in
        let response = line_of (codes "Response") in
        tcp_round tr t lines extra (some s)
        ≡ answered 1 (codes "tcp_server_out") (codes "client1") request response
          ++ answered 2 (codes "tcp_server_out") (codes "client2") request response
  unfolding Tcp.subscriptions Tcp.launches Tcp.configure Tcp.on_request Tcp.loop spread deliver
      text_eq
  tcp_connected s ok =
      let p = s.bind_port in
      let request = line_of (codes "Request") in
      let response = line_of (codes "Response") in
      rw
        (
          heard_here,
          arrives p default_client ok 1 request,
          arrives p default_client ok 2 request,
          heard_here,
          returns p default_client ok 1 response,
          not_second p default_client ok response,
          returns p default_client ok 2 response,
          not_first p default_client ok response,
          heard_here,
          heard_here,
        )
        refl

  pub udp_connected :
      (s : Server)
      → IsConnected s.bind_port udp_client
      → let request = codes "Request" in
        let response = codes "Response" in
        udp_round tr t lines extra (some s)
        ≡ answered 1 (codes "udp_server_out") (codes "client1") request response
          ++ answered 2 (codes "udp_server_out") (codes "client2") request response
  unfolding Udp.subscriptions Udp.launches Udp.configure Udp.on_request Udp.loop spread deliver
      text_eq
  udp_connected s ok =
      let p = s.bind_port in
      let request = codes "Request" in
      let response = codes "Response" in
      rw
        (
          heard_here,
          arrives p udp_client ok 1 request,
          arrives p udp_client ok 2 request,
          heard_here,
          returns p udp_client ok 1 response,
          not_second p udp_client ok response,
          returns p udp_client ok 2 response,
          not_first p udp_client ok response,
          heard_here,
          heard_here,
        )
        refl

  pub cobs_connected :
      (s : Server)
      → IsConnected s.bind_port default_client
      → cobs_round tr t lines extra (some s)
        ≡ answered 1 (codes "tcp_server_out") (codes "client") (codes "Request") (codes "Response")
          ++ crossed
  unfolding Cobs.subscriptions Cobs.launches Cobs.configure Cobs.on_request Cobs.loop spread deliver
      text_eq
  cobs_connected s ok =
      let p = s.bind_port in
      rw
        (
          heard_here,
          arrives p default_client ok 1 (codes "Request"),
          heard_here,
          returns p default_client ok 1 (codes "Response"),
          over_line (message (codes "ToPTY")),
          over_line (message (codes "ToSerial")),
          heard_here,
          heard_here,
        )
        refl

  pub refused_all :
      (s : Server)
      → some server_port ≢ s.bind_port
      → (tcp_round tr t lines extra (some s) ≡ [])
        × (udp_round tr t lines extra (some s) ≡ [])
        × (cobs_round tr t lines extra (some s) ≡ crossed)
  unfolding Tcp.subscriptions Tcp.launches Tcp.configure Tcp.on_request Tcp.loop Udp.subscriptions
      Udp.launches Udp.configure Udp.on_request Udp.loop Cobs.subscriptions Cobs.launches
      Cobs.configure Cobs.on_request Cobs.loop spread deliver text_eq
  refused_all s ne =
      let p = s.bind_port in
      let off = λ (i : ℕ) (c : Client) (d : IoData) (aim : c.remote_port ≡ some server_port).
        tl.refused p i c d (λ e. ne (sym aim ∙ e)) in
      let tcp_request = message (line_of (codes "Request")) in
      let udp_request = message (codes "Request") in
      (
        rw
            (
              heard_here,
              off 1 default_client tcp_request refl,
              off 2 default_client tcp_request refl,
            )
            refl,
        rw (heard_here, off 1 udp_client udp_request refl, off 2 udp_client udp_request refl) refl,
        rw
            (
              heard_here,
              off 1 default_client udp_request refl,
              over_line (message (codes "ToPTY")),
              over_line (message (codes "ToSerial")),
              heard_here,
            )
            refl,
      )
