-- ===== src/Examples/Subscribers.antt =====
-- Three rounds of the program same_group, and another one of the same kind that hears it.
use goby3_examples.Base.{
  ◌*◌, ◌≡◌, refl, Bool, true, false, ◌&&◌, leb, none, some, each, if◌then◌else◌, arith,
}
use goby3_examples.Base.Int.{ℤ, pos, negsuc}
use goby3_examples.Base.Text.{Text}
use goby3_examples.PubSub.{Layer, intervehicle, Publication}
use goby3_examples.Publishers.{Message, dccl_nav_with_id, same_group, rounds}
use goby3_examples.Publishers.Rounds.{IsId, Passes}
use goby3_examples.Subscribers.{Link, on_same_group, heard}
use goby3_examples.Subscribers.Heard.{LinkLaws, prints, reports, heard-rounds}
use goby3_examples.Examples.PubSub.{transporter, transporter_laws}

-- DCCL, which encodes an id of 1 to 10.
abbrev id_in : ℤ → Bool
id_in (pos n) = leb 1 n && leb n 10
id_in (negsuc n) = false

id_in-true : (id : ℤ) → IsId id → id_in id ≡ true
id_in-true (pos n) h = ground arith
id_in-true (negsuc n) h = absurd (omega arith)

abbrev encodable : Layer → Message → Bool
encodable intervehicle (dccl_nav_with_id id r) = id_in id
encodable _ _ = true

Passes-encodable :
    (lay : Layer) (g : Text) (m : Message)
    → Passes (record { layer = lay; group = g; message = m })
    → encodable lay m ≡ true
Passes-encodable intervehicle g (dccl_nav_with_id id r) h = id_in-true id h.0
Passes-encodable _ g _ h = ground arith

abbrev link : Link
link p = if encodable p.layer p.message then some p else none

crosses : (p : Publication Message) → Passes p → link p ≡ some p
crosses p h = rw (Passes-encodable p.layer p.group p.message h) refl

link_laws : LinkLaws link
link_laws = record { crosses = crosses }

heard-rounds_example :
    heard transporter link
      (same_group (pos 3))
      on_same_group
      (rounds (same_group (pos 3)) (λ k. k * 7) 3 0)
    ≡ each (prints (same_group (pos 3)) on_same_group) (reports (λ k. k * 7) 3 0)
heard-rounds_example =
    heard-rounds transporter transporter_laws link link_laws (same_group (pos 3)) on_same_group
      (λ k. k * 7) 3 0 (omega arith)
