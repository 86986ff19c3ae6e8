-- ===== src/Multicast/Group/Count.antt =====
-- How many packets a group has sent.
use goby3_examples.Base.{
  ℕ, suc, ◌+◌, ◌≡◌, refl, true, false, ◌&&◌, List, [], ◌∷◌, ◌++◌, length, length-append,
  if◌then◌else◌, Bool-cases, inl, inr, arith,
}
use goby3_examples.Base.Int.{ℤ, ◌==ℤ◌}
use goby3_examples.Modem.{ModemTransmission, is_data}
use goby3_examples.Multicast.{
  Driver, Wire, Completion, sent, received, complete, handle_initiate_transmission, start_send,
  send_complete, receive_complete, receive_message, start_receive, wants_ack,
}
use goby3_examples.Multicast.Numbering.{transmitted}
use goby3_examples.Multicast.Link.{packets, delivered}
use goby3_examples.Multicast.Group.{Group, id_of, logged, initiate, poll, Steps, stay, later, start}

-- The delivered messages that ask the modem that delivered them for an ack.
abbrev pub asked : List (ℤ × ModemTransmission) → ℕ
asked [] = 0
asked ((id, m) ∷ log) =
    let rest = asked log in
    if is_data m.type && m.ack_requested && (m.dest ==ℤ id) then suc rest else rest

asked-append : (xs ys : List (ℤ × ModemTransmission)) → asked (xs ++ ys) ≡ asked xs + asked ys
asked-append [] ys = omega arith
asked-append ((id, m) ∷ xs) ys = ground (arith, asked-append xs ys)

module _ (w : Wire) where
  initiate-count :
      (modify request : ModemTransmission → ModemTransmission) (d : Driver)
      (orig : ModemTransmission)
      → let es = (handle_initiate_transmission w modify request d orig).1 in
        length (packets es) ≡ length (transmitted es)
  unfolding handle_initiate_transmission start_send
  initiate-count modify request d orig = ground arith

  complete-count :
      (d : Driver) (c : Completion)
      → let es = complete w d c in
        length (packets es) ≡ asked (logged d.driver_cfg.modem_id (delivered es))
  unfolding complete send_complete receive_complete receive_message start_receive start_send
  complete-count d (sent error) = refl
  complete-count d (received true bytes) = refl
  complete-count d (received false bytes) =
      let m = w.parse bytes in
      elim (Bool-cases (m.src ==ℤ d.driver_cfg.modem_id)) [
        | inl own ↦ rw own refl
        | inr other ↦ elim (Bool-cases (wants_ack d m)) [
          | inl wants ↦ rw (other, wants) (rw wants refl)
          | inr silent ↦ rw (other, silent) (rw silent refl)
        ]
      ]

  -- From a start with nothing on the air, through any steps of any drivers and whatever the bytes
  -- that they hear stand for: the number of packets sent is that of the messages that the
  -- applications have transmitted and of the messages that the modems have delivered and that asked
  -- them for an ack.
  pub air-count :
      (drivers : ℕ → Driver) (g : Group)
      → Steps w (start drivers) g
      → length g.air ≡ length g.sent + asked g.log
  air-count drivers g stay = refl
  air-count drivers g (later {h} steps (initiate i modify request orig)) =
      let es = (handle_initiate_transmission w modify request (h.driver i) orig).1 in
      omega (
        arith,
        air-count drivers h steps,
        length-append h.air (packets es),
        length-append h.sent (transmitted es),
        initiate-count modify request (h.driver i) orig,
      )
  air-count drivers g (later {h} steps (poll i c on)) =
      let es = complete w (h.driver i) c in
      omega (
        arith,
        air-count drivers h steps,
        length-append h.air (packets es),
        asked-append h.log (logged (id_of h i) (delivered es)),
        complete-count (h.driver i) c,
      )
