-- ===== src/IoExamples/Exchange.antt =====
-- Which port the clients aim at.
use goby3_examples.Base.{◌≡◌, refl, sym, ◌↔◌, ◌⊎◌, inl, inr, ℕ, Option, none, some, arith}
use goby3_examples.IoExamples.{Server, Client, server_port}
use goby3_examples.IoExamples.Tcp
use goby3_examples.IoExamples.Udp

abbrev pub bound : Option Server → Option ℕ
bound none = none
bound (some s) = s.bind_port

abbrev pub target : Option Client → Option ℕ
target none = none
target (some c) = c.remote_port

-- With no client configured by the user, the clients of the TCP and of the UDP application aim at
-- the server's port if and only if the user has left that port at its default.
pub configure-aims :
    (s : Option Server)
    → let t = Tcp.configure (record { server = s; client1 = none; client2 = none }) in
      let u = Udp.configure (record { server = s; client1 = none; client2 = none }) in
      (((target t.client1 ≡ bound t.server) × (target t.client2 ≡ bound t.server))
        ↔ ((s ≡ none) ⊎ (bound s ≡ some server_port)))
      × (((target u.client1 ≡ bound u.server) × (target u.client2 ≡ bound u.server))
          ↔ ((s ≡ none) ⊎ (bound s ≡ some server_port)))
unfolding Tcp.configure Udp.configure
configure-aims none =
    (((λ h. inl refl), (λ _. (refl, refl))), ((λ h. inl refl), (λ _. (refl, refl))))
configure-aims (some s) =
    (((λ h. inr (sym h.0)), (λ h. ground arith)), ((λ h. inr (sym h.0)), (λ h. ground arith)))
