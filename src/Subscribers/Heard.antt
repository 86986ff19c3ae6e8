-- ===== src/Subscribers/Heard.antt =====
-- Which subscriber prints what, for each program that publishes reports.
use goby3_examples.Base.{
  some, All, ◌∙◌, each, ℕ, zero, suc, ◌+◌, ◌≡◌, refl, List, [], ◌∷◌, ◌++◌, append_assoc, arith, inl,
  inr, Bool-cases,
}
use goby3_examples.Base.Int.{pos}
use goby3_examples.Base.Text.{codes, text_eq}
use goby3_examples.PubSub.{
  interthread, interprocess, intervehicle, Transporter, TransporterLaws, Publication,
}
use goby3_examples.LogControl.{NavigationReport, random_nav}
use goby3_examples.Publishers.{
  Published, zeromq_loop, udpm_loop, zenoh_loop, interthread_loop, intervehicle_loop,
  broadcast_loop, same_group_loop, json_loop, Program, threads, acoustic, broadcast, json_publisher,
  same_group, loop_of, rounds, Message,
}
use goby3_examples.Publishers.Rounds.{Passes, HasId, all_pass}
use goby3_examples.Subscribers.{
  Printed, rx, rx_json, received, rx_by, received_with_id, link_header, as_json, to_json, Listener,
  on_zeromq, on_udpm, on_zenoh, on_threads, on_acoustic, on_broadcast, on_same_group, on_json_group,
  subscriptions_of, heard, publisher_network, listener_network, same_network, deliver_all, Link,
  crossing,
}

-- The reports that the rounds of a program make.
abbrev pub reports : (ℕ → ℕ) → ℕ → ℕ → List NavigationReport
reports rand zero k = []
reports rand (suc n) k = random_nav rand k ∷ reports rand n (k + 3)

-- What a listener is to print of one report of a program.
abbrev pub prints : Program → Listener → NavigationReport → List Printed
prints Program.zeromq on_zeromq r = rx r ∷ []
prints Program.udpm on_udpm r = rx r ∷ []
prints Program.zenoh on_zenoh r = rx r ∷ []
prints threads on_threads r = rx_by 0 r ∷ rx_by 1 r ∷ []
prints acoustic on_acoustic r = link_header ∷ received r ∷ []
prints acoustic on_broadcast r = received r ∷ []
prints broadcast on_acoustic r = link_header ∷ received r ∷ []
prints broadcast on_broadcast r = received r ∷ []
prints (same_group id) on_same_group r = link_header ∷ received_with_id id r ∷ []
prints json_publisher on_json_group r =
    rx_json r
    ∷ as_json (to_json r)
    ∷ as_json ((codes "x2", pos 10) ∷ (codes "y2", pos 20) ∷ (codes "z2", pos 30) ∷ [])
    ∷ []
prints _ _ r = []

-- What lies within the bounds by which DCCL encodes it gets across as it is: the reports' numbers are
-- whole.
pub record LinkLaws (link : Link) : Type 0 where
  pub crosses : (p : Publication Message) → Passes p → link p ≡ some p

all_cross :
    (link : Link) (laws : LinkLaws link) (ps : Published)
    → All Passes ps
    → each (λ q. crossing (link q)) ps ≡ ps
all_cross link laws [] h = refl
all_cross link laws (p ∷ ps) h = rw (laws.crosses p h.0, all_cross link laws ps h.1) refl

each-some : (ps : Published) → each (λ q. crossing (some q)) ps ≡ ps
each-some [] = refl
each-some (p ∷ ps) = rw (each-some ps) refl

module _ (tr : Transporter) (laws : TransporterLaws tr) where
  -- What is heard if all of it crosses.
  abbrev whole : Program → Listener → Published → List Printed
  whole = heard tr (λ p. some p)

  heard-loop :
      (p : Program) (s : Listener) (rand : ℕ → ℕ) (k : ℕ)
      → whole p s (loop_of p rand k) ≡ prints p s (random_nav rand k)
  unfolding loop_of zeromq_loop udpm_loop zenoh_loop interthread_loop intervehicle_loop
      broadcast_loop same_group_loop json_loop heard text_eq
  heard-loop Program.zeromq on_zeromq rand k = rw (laws.same interprocess) refl
  heard-loop Program.udpm on_udpm rand k = rw (laws.same interprocess) refl
  heard-loop Program.zenoh on_zenoh rand k = rw (laws.same interprocess) refl
  heard-loop threads on_threads rand k = rw (laws.same interthread) refl
  heard-loop acoustic on_acoustic rand k = rw (laws.same intervehicle) refl
  heard-loop acoustic on_broadcast rand k = rw (laws.same intervehicle) refl
  heard-loop broadcast on_acoustic rand k = rw (laws.same intervehicle) refl
  heard-loop broadcast on_broadcast rand k = rw (laws.same intervehicle) refl
  heard-loop (same_group id) on_same_group rand k = rw (laws.same intervehicle) refl
  heard-loop json_publisher on_json_group rand k = rw (laws.same interprocess) refl
  heard-loop _ _ rand k = ground arith

  deliver_all-append :
      (p : Program) (s : Listener) (ps qs : Published)
      → deliver_all tr (subscriptions_of s) (ps ++ qs)
        ≡ deliver_all tr (subscriptions_of s) ps ++ deliver_all tr (subscriptions_of s) qs
  deliver_all-append p s [] qs = refl
  deliver_all-append p s (m ∷ ps) qs = rw (deliver_all-append p s ps qs, append_assoc) refl

  heard-append :
      (p : Program) (s : Listener) (ps qs : Published)
      → whole p s (ps ++ qs) ≡ whole p s ps ++ whole p s qs
  unfolding heard
  heard-append p s ps qs =
      elim (Bool-cases (same_network (publisher_network p) (listener_network s))) [
        | inl e ↦
            rw (e, each-some (ps ++ qs), each-some ps, each-some qs) (deliver_all-append p s ps qs)
        | inr e ↦ rw e refl
      ]

  heard_nothing : (p : Program) (s : Listener) → whole p s [] ≡ []
  unfolding heard
  heard_nothing p s = ground arith

  whole-rounds :
      (p : Program) (s : Listener) (rand : ℕ → ℕ) (n k : ℕ)
      → whole p s (rounds p rand n k) ≡ each (prints p s) (reports rand n k)
  unfolding rounds
  whole-rounds p s rand zero k = heard_nothing p s
  whole-rounds p s rand (suc n) k =
      rw
        (
          heard-append p s (loop_of p rand k) (rounds p rand n (k + 3)),
          heard-loop p s rand k,
          whole-rounds p s rand n (k + 3),
        )
        refl

  heard-whole :
      (link : Link) (ll : LinkLaws link) (p : Program) (s : Listener) (ps : Published)
      → All Passes ps
      → heard tr link p s ps ≡ whole p s ps
  unfolding heard
  heard-whole link ll p s ps h = rw (all_cross link ll ps h, each-some ps) refl

  -- Over a transporter that behaves as Goby documents and a link that carries what lies within the bounds
  -- of nav_dccl.proto, and for each of the eight programs that
  -- publish reports, each of the eight that subscribe, with an id of 1 to 10 for same_group, any random numbers and any number of rounds:
  -- the subscriber prints of each report what `prints` says, in order, and nothing else. That is the
  -- report itself if it listens on the publisher's network and layer for the publisher's type (from
  -- another vehicle behind its link header, but for broadcast), once for each of the two threads of
  -- the multi-threaded program, and for json the report, the report as JSON and the fixed object;
  -- and nothing for any other pair.
  pub heard-rounds :
      (link : Link)
      → LinkLaws link
      → (p : Program) (s : Listener) (rand : ℕ → ℕ) (n k : ℕ) → HasId p
      → heard tr link p s (rounds p rand n k) ≡ each (prints p s) (reports rand n k)
  heard-rounds link ll p s rand n k id =
      heard-whole link ll p s (rounds p rand n k) (all_pass p rand n k id)
      ∙ whole-rounds p s rand n k
