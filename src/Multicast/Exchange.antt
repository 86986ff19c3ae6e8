-- ===== src/Multicast/Exchange.antt =====
-- A message and its answer, between drivers on one multicast group.
use goby3_examples.Base.{
  ℕ, suc, ◌+◌, ◌<◌, ◌≡◌, refl, ◌≢◌, ◌∙◌, ap, true, false, ◌&&◌, not, List, [], ◌∷◌, ◌++◌, length,
  length-append, inl, inr, Bool-cases, arith, if◌then◌else◌,
}
use goby3_examples.Base.Int.{◌==ℤ◌, ==ℤ_iff}
use goby3_examples.Base.Text.{Text}
use goby3_examples.Modem.{ModemTransmission, data_type, ack_type}
use goby3_examples.Multicast.{
  Driver, Wire, start_send, start_of, make_ack, wants_ack, receive_message, start_receive,
  receive_complete,
}
use goby3_examples.Multicast.Acks.{frame_numbers, make_ack-acked_frame}
use goby3_examples.Multicast.Link.{packets, delivered}

abbrev pub IsRequest : ModemTransmission → Type 0
IsRequest m = (m.type ≡ data_type) × (m.ack_requested ≡ true)

-- Protobuf reads back a message that it has written.
abbrev pub RoundTrips : Wire → ModemTransmission → Type 0
RoundTrips w m = w.parse (w.serialize m) ≡ m

module _ (w : Wire) where
  -- What a driver does when the packet of a message arrives.
  abbrev pub hear : Driver → ModemTransmission → List ModemTransmission × List Text
  hear d m = let es = receive_complete w d false (w.serialize m) in (delivered es, packets es)

  -- The packets by which the drivers of a group answer one message.
  abbrev pub answers : List Driver → ModemTransmission → List Text
  answers [] m = []
  answers (d ∷ ds) m = (hear d m).1 ++ answers ds m

module _ (w : Wire) where
  -- A driver drops its own packets, which the multicast group brings back to it.
  pub hear_own :
      (d : Driver) (m : ModemTransmission)
      → RoundTrips w m
      → m.src ≡ d.driver_cfg.modem_id
      → hear w d m ≡ ([], [])
  unfolding receive_complete start_receive
  hear_own d m round h = ground (arith, round, ==ℤ_iff m.src d.driver_cfg.modem_id)

  pub hear_other :
      (d : Driver) (m : ModemTransmission)
      → RoundTrips w m
      → m.src ≢ d.driver_cfg.modem_id
      → hear w d m ≡ (m ∷ [], if wants_ack d m then w.serialize (make_ack d m) ∷ [] else [])
  unfolding receive_complete receive_message start_send start_receive
  hear_other d m round h = ground (arith, round, ==ℤ_iff m.src d.driver_cfg.modem_id)

  pub make_ack-src :
      (b : Driver) (m : ModemTransmission) → (make_ack b m).src ≡ b.driver_cfg.modem_id
  unfolding make_ack
  make_ack-src b m = refl

  pub make_ack-type : (b : Driver) (m : ModemTransmission) → (make_ack b m).type ≡ ack_type
  unfolding make_ack
  make_ack-type b m = refl

  -- Of two drivers with different ids, the one that a data message with a request for an ack is
  -- addressed to delivers it and answers with one packet; the sender delivers that ack, which names
  -- each frame of the message in order, and sends nothing in return. The frame numbers are below 2
  -- ^ 31, and Protobuf reads back the message and the ack.
  pub exchange :
      (a b : Driver) (m : ModemTransmission)
      → RoundTrips w m
      → RoundTrips w (make_ack b m)
      → a.driver_cfg.modem_id ≢ b.driver_cfg.modem_id
      → m.src ≡ a.driver_cfg.modem_id
      → m.dest ≡ b.driver_cfg.modem_id
      → IsRequest m
      → start_of m.frame_start + length m.frame < 2147483648
      → let ack = make_ack b m in
        (hear w b m ≡ (m ∷ [], w.serialize ack ∷ []))
        × (hear w a ack ≡ (ack ∷ [], []))
        × (ack.acked_frame ≡ frame_numbers (start_of m.frame_start) m.frame)
  exchange a b m round round_ack distinct from to req room = (
    hear_other b m round (λ e. distinct (cc))
        ∙ ground (arith, ==ℤ_iff m.dest b.driver_cfg.modem_id),
    hear_other a (make_ack b m) round_ack (λ e. distinct (cc (make_ack-src b m)))
        ∙ rw (make_ack-type b m),
    make_ack-acked_frame b m room,
  )

  -- The drivers that a message is addressed to, its sender left out.
  abbrev pub addressees : List Driver → ModemTransmission → ℕ
  addressees [] m = 0
  addressees (d ∷ ds) m =
      let rest = addressees ds m in
      let id = d.driver_cfg.modem_id in
      if (m.dest ==ℤ id) && not (m.src ==ℤ id) then suc rest else rest

  answer :
      (d : Driver) (m : ModemTransmission)
      → RoundTrips w m
      → (hear w d m).1 ≡ (
          if m.src ==ℤ d.driver_cfg.modem_id
          then []
          else if wants_ack d m
          then w.serialize (make_ack d m) ∷ []
          else [])
  answer d m round = elim (Bool-cases (m.src ==ℤ d.driver_cfg.modem_id)) [
    | inl own ↦
        rw own (ap (λ p. p.1) (hear_own d m round ((==ℤ_iff m.src d.driver_cfg.modem_id).0 own)))
    | inr other ↦
        rw other (
          ap (λ p. p.1)
            (hear_other d m round (λ e. cc ((==ℤ_iff m.src d.driver_cfg.modem_id).1 e))))
  ]

  -- Of all the drivers in a group, those that a data message with a request for an ack is addressed
  -- to, its sender left out, answer it, once each. Protobuf reads back the message.
  pub length-answers :
      (ds : List Driver) (m : ModemTransmission)
      → RoundTrips w m
      → IsRequest m
      → length (answers w ds m) ≡ addressees ds m
  length-answers [] m round req = refl
  length-answers (d ∷ ds) m round req = ground (
    arith,
    length-append (hear w d m).1 (answers w ds m),
    answer d m round,
    length-answers ds m round req,
  )

  -- No driver of a group answers an ack, if Protobuf reads it back.
  pub answers-ack :
      (ds : List Driver) (b : Driver) (m : ModemTransmission)
      → RoundTrips w (make_ack b m)
      → answers w ds (make_ack b m) ≡ []
  answers-ack [] b m round = refl
  answers-ack (d ∷ ds) b m round =
      ground (arith, answer d (make_ack b m) round, make_ack-type b m, answers-ack ds b m round)
