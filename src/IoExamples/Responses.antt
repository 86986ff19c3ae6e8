-- ===== src/IoExamples/Responses.antt =====
-- What the clients of the three applications receive, with the clients at their defaults.
use goby3_examples.Base.{
  ℕ, ◌≡◌, refl, sym, ap, ◌≢◌, ◌∙◌, ◌⊎◌, inl, inr, Bool, true, false, Option, some, none, List, [],
  ◌∷◌, ◌++◌, map, ◌==◌, ==_iff, if◌then◌else◌, Bool-cases,
}
use goby3_examples.Base.Text.{Text, codes}
use goby3_examples.IoExamples.{
  IoData, Server, Client, server_port, server_addr, or_default, message,
}
use goby3_examples.IoExamples.Exchange.{bound}
use goby3_examples.IoExamples.Threads.{Threads, IsConnected, ThreadLaws, round}
use goby3_examples.IoExamples.Rounds.{Replies, round_connected, round_refused}
use goby3_examples.IoExamples.Tcp
use goby3_examples.IoExamples.Udp
use goby3_examples.IoExamples.Cobs

-- The user has left the server, or at least its port, at the default.
abbrev is_default_port : Option ℕ → Bool
is_default_port none = false
is_default_port (some n) = n == server_port

abbrev pub is_default : Option Server → Bool
is_default none = true
is_default (some s) = is_default_port s.bind_port

abbrev client_of : Option Client → Client
client_of none = record { bind_port = none; remote_address = none; remote_port = none }
client_of (some c) = c

-- The data that an application publishes on the groups that a test selects.
abbrev on : {G : Type 0} → (G → Bool) → List (G × IoData) → List IoData
on is [] = []
on is ((g, d) ∷ ds) = if is g then d ∷ on is ds else on is ds

abbrev tcp_server : Tcp.Group → Bool
tcp_server Tcp.server_out = true
tcp_server _ = false

abbrev tcp_1 : Tcp.Group → Bool
tcp_1 Tcp.client1_out = true
tcp_1 _ = false

abbrev tcp_2 : Tcp.Group → Bool
tcp_2 Tcp.client2_out = true
tcp_2 _ = false

abbrev udp_server : Udp.Group → Bool
udp_server Udp.server_out = true
udp_server _ = false

abbrev udp_1 : Udp.Group → Bool
udp_1 Udp.client1_out = true
udp_1 _ = false

abbrev udp_2 : Udp.Group → Bool
udp_2 Udp.client2_out = true
udp_2 _ = false

abbrev cobs_server : Cobs.Group → Bool
cobs_server Cobs.server_out = true
cobs_server _ = false

abbrev cobs_client : Cobs.Group → Bool
cobs_client Cobs.client_out = true
cobs_client _ = false

-- What the first and the second client of the TCP application receive for one call of `loop`.
abbrev pub tcp_received : Threads → Option Server → List IoData × List IoData
tcp_received t s =
    let cfg = Tcp.configure (record { server = s; client1 = none; client2 = none }) in
    let c1 = client_of cfg.client1 in
    let c2 = client_of cfg.client2 in
    let got =
      round t (λ d. on tcp_server (Tcp.on_request d)) (bound cfg.server) (c1, on tcp_1 Tcp.loop)
        (c2, on tcp_2 Tcp.loop) in
    (got 1 c1, got 2 c2)

-- What the first and the second client of the UDP application receive for one call of `loop`.
abbrev pub udp_received : Threads → Option Server → List IoData × List IoData
udp_received t s =
    let cfg = Udp.configure (record { server = s; client1 = none; client2 = none }) in
    let c1 = client_of cfg.client1 in
    let c2 = client_of cfg.client2 in
    let got =
      round t (λ d. on udp_server (Udp.on_request d)) (bound cfg.server) (c1, on udp_1 Udp.loop)
        (c2, on udp_2 Udp.loop) in
    (got 1 c1, got 2 c2)

-- What the client of the COBS application receives; there is no second one.
abbrev pub cobs_received : Threads → Option Server → List IoData
cobs_received t s =
    let cfg = Cobs.configure (record { server = s; client = none; pty = none; serial = none }) in
    let c = client_of cfg.client in
    round t (λ d. on cobs_server (Cobs.on_request d)) (bound cfg.server)
      (c, on cobs_client Cobs.loop) (c, []) 1 c

-- The port that a configurator binds the server to, and whether the clients' default is that one.
some_inj : {a b : ℕ} → some a ≡ some b → a ≡ b
some_inj e = cc

port_of :
    (o : Option ℕ)
    → ((is_default_port o ≡ true) × (o ≡ some server_port))
      ⊎ ((is_default_port o ≡ false) × (some server_port ≢ o))
port_of none = inr (refl, λ e. cc)
port_of (some n) = elim (Bool-cases (n == server_port)) [
  | inl e ↦ inl (e, ap some ((==_iff n server_port).0 e))
  | inr e ↦ inr (e, λ q. cc ((==_iff n server_port).1 (sym (some_inj q)), e))
]

pub port_cases :
    (s : Option Server)
    → let p = bound (some (or_default (record { bind_port = some server_port }) s)) in
      ((is_default s ≡ true) × (p ≡ some server_port))
      ⊎ ((is_default s ≡ false) × (some server_port ≢ p))
port_cases none = inl (refl, refl)
port_cases (some s) = port_of s.bind_port

module _ (t : Threads) (l : ThreadLaws t) where
  module _ (answer : IoData → List IoData) (bytes : Text) (replies : Replies answer bytes) where
    answered :
        (s : Option Server) (c : Client) (sent1 sent2 : List IoData)
        → c.remote_address ≡ some server_addr
        → c.remote_port ≡ some server_port
        → let p = bound (some (or_default (record { bind_port = some server_port }) s)) in
          (round t answer p (c, sent1) (c, sent2) 1 c
            ≡ (if is_default s then map (λ _. message bytes) sent1 else []))
          × (round t answer p (c, sent1) (c, sent2) 2 c
              ≡ (if is_default s then map (λ _. message bytes) sent2 else []))
    answered s c sent1 sent2 address port =
        let p = bound (some (or_default (record { bind_port = some server_port }) s)) in
        elim (port_cases s) [
          | inl (e, bound_there) ↦
              let ok : IsConnected p c = record {
                same_address = address;
                same_port = port ∙ sym bound_there;
                bound = λ n. cc;
              } in
              rw e (round_connected t l answer bytes replies p c c sent1 sent2 ok ok)
          | inr (e, other) ↦
              let aims : c.remote_port ≢ p = λ q. other (sym port ∙ q) in
              rw e (
                round_refused t l answer bytes replies p c c sent1 sent2 1 c aims aims,
                round_refused t l answer bytes replies p c c sent1 sent2 2 c aims aims,
              )
        ]

  -- Over I/O threads that keep to `ThreadLaws`, with the clients at their defaults: if the user
  -- leaves the server, or its port, at its default, each client of the TCP, the UDP and the COBS
  -- application receives one response for a call of `loop`, and if not, no client receives any.
  pub received-is_default :
      (s : Option Server)
      → let tcp = if is_default s then message (codes "Response" ++ b'\n' ∷ []) ∷ [] else [] in
        let udp = if is_default s then message (codes "Response") ∷ [] else [] in
        (tcp_received t s ≡ (tcp, tcp))
        × (udp_received t s ≡ (udp, udp))
        × (cobs_received t s ≡ udp)
  unfolding Tcp.configure Tcp.on_request Tcp.loop Udp.configure Udp.on_request Udp.loop
      Cobs.configure Cobs.on_request Cobs.loop
  received-is_default s =
      let (t1, t2) =
        answered (λ d. on tcp_server (Tcp.on_request d)) (codes "Response" ++ b'\n' ∷ [])
          (λ d. refl) s
          (record {
            bind_port = none;
            remote_address = some server_addr;
            remote_port = some server_port;
          })
          (on tcp_1 Tcp.loop) (on tcp_2 Tcp.loop) refl refl in
      let (u1, u2) =
        answered (λ d. on udp_server (Udp.on_request d)) (codes "Response") (λ d. refl) s
          (record {
            bind_port = some 0;
            remote_address = some server_addr;
            remote_port = some server_port;
          })
          (on udp_1 Udp.loop) (on udp_2 Udp.loop) refl refl in
      let (c1, _) =
        answered (λ d. on cobs_server (Cobs.on_request d)) (codes "Response") (λ d. refl) s
          (record {
            bind_port = none;
            remote_address = some server_addr;
            remote_port = some server_port;
          })
          (on cobs_client Cobs.loop) [] refl refl in
      (rw (t1, t2) refl, rw (u1, u2) refl, c1)
