-- ===== src/Multicast/Group/Attribution.antt =====
-- Which message an ack is about.
use goby3_examples.Base.{
  ℕ, ◌+◌, ◌≤◌, ◌<◌, ◌≡◌, refl, ap, ◌∙◌, true, List, [], ◌∷◌, Among, inl, inr, length, arith,
}
use goby3_examples.Base.Int.{ℤ, pos, ==ℤ_iff}
use goby3_examples.Base.Text.{Text}
use goby3_examples.Modem.{ModemTransmission, is_data, ack_type}
use goby3_examples.Multicast.{Driver, Wire, make_ack, wants_ack}
use goby3_examples.Multicast.Acks.{frame_numbers, make_ack-acked_frame}
use goby3_examples.Multicast.Exchange.{RoundTrips}
use goby3_examples.Multicast.Group.{Group, id_of, start}
use goby3_examples.Multicast.Group.Delivery.{reached_delivered}
use goby3_examples.Multicast.Group.Numbers.{
  first, stop, TidySteps, steps_of, IsNumbered, reached-IsNumbered,
}

numbers_within :
    (f n : ℕ) (fs : List Text) → Among (pos f) (frame_numbers n fs) → (n ≤ f) × (f < n + length fs)
numbers_within f n [] h = absurd h
numbers_within f n (x ∷ fs) (inl e) = ground arith
numbers_within f n (x ∷ fs) (inr h) = let (a, b) = numbers_within f (n + 1) fs h in omega arith

wants_parts :
    (d : Driver) (m : ModemTransmission)
    → wants_ack d m ≡ true
    → (m.ack_requested ≡ true) × (m.dest ≡ d.driver_cfg.modem_id)
wants_parts d m h = (ground arith, (==ℤ_iff m.dest d.driver_cfg.modem_id).0 (ground arith))

make_ack-fields :
    (d : Driver) (m : ModemTransmission)
    → ((make_ack d m).src ≡ d.driver_cfg.modem_id) × ((make_ack d m).dest ≡ m.src)
unfolding make_ack
make_ack-fields d m = (refl, refl)

same_message :
    (g : Group) (n : IsNumbered g) (m x : ModemTransmission) (f : ℕ)
    → Among m g.sent
    → Among x g.sent
    → m.src ≡ x.src
    → first m ≤ f
    → f < stop m
    → first x ≤ f
    → f < stop x
    → m ≡ x
same_message g n m x f sm sx e a b c d = elim (n.apart m x sm sx e) [
  | inl same ↦ same
  | inr (inl before) ↦ absurd (omega arith)
  | inr (inr after) ↦ absurd (omega arith)
]

module _ (w : Wire) (reads : (m : ModemTransmission) → RoundTrips w m) where
  -- From a start with nothing on the air and drivers whose ids all differ, through any steps in which
  -- every application sends data of its own modem, with no number of its own and numbers that stay
  -- below 2 ^ 31: if an ack that names frame f is delivered anywhere, and an application of the modem
  -- that the ack is addressed to transmitted a message with a frame f, then the ack's sender has
  -- delivered that very message, which was addressed to it and asked for an ack. Protobuf reads back
  -- every message.
  pub ack_confirms :
      (drivers : ℕ → Driver) (g : Group) (id : ℤ) (ack m : ModemTransmission) (f : ℕ)
      → ((i j : ℕ) → id_of (start drivers) i ≡ id_of (start drivers) j → i ≡ j)
      → TidySteps w (start drivers) g
      → Among (id, ack) g.log
      → ack.type ≡ ack_type
      → Among (pos f) ack.acked_frame
      → Among m g.sent
      → m.src ≡ ack.dest
      → first m ≤ f
      → f < stop m
      → (i : ℕ) × (ack.src ≡ id_of g i)
        × (m.dest ≡ id_of g i)
        × (m.ack_requested ≡ true)
        × Among (id_of g i, m) g.log
  ack_confirms drivers g id ack m f distinct steps heard kind named sent from low high =
      let n = reached-IsNumbered w drivers g distinct steps in
      elim (reached_delivered w reads drivers g id ack (steps_of w (start drivers) g steps)
        heard).1 [
          | inl by_app ↦ absurd (cc (n.plain ack by_app, ap is_data kind))
          | inr (i, orig, l, wants, e, transmitted) ↦
              let (src, dest) = make_ack-fields (g.driver i) orig in
              let (asks, to) = wants_parts (g.driver i) orig wants in
              let numbers = make_ack-acked_frame (g.driver i) orig (n.low orig transmitted) in
              let (a, b) =
                numbers_within f (first orig) orig.frame
                  (rw (ap (λ x. x.acked_frame) e ∙ numbers) at named) in
              let same : m ≡ orig =
                same_message g n m orig f sent transmitted (from ∙ (ap (λ x. x.dest) e ∙ dest)) low
                  high a b in
              (
                i,
                ap (λ x. x.src) e ∙ src,
                ap (λ x. x.dest) same ∙ to,
                ap (λ x. x.ack_requested) same ∙ asks,
                rw same l,
              )
        ]
