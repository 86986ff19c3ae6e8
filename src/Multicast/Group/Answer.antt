-- ===== src/Multicast/Group/Answer.antt =====
-- A request, and the answer to it.
use goby3_examples.Base.{
  ℕ, ◌≡◌, refl, sym, ap, ◌≢◌, true, false, List, Among, Among-left, Among-right, arith, inl,
}
use goby3_examples.Base.Int.{ℤ, ==ℤ_iff}
use goby3_examples.Modem.{ModemTransmission}
use goby3_examples.Multicast.{
  Driver, Wire, received, complete, make_ack, wants_ack, start_send, prepare, has_data,
  handle_initiate_transmission,
}
use goby3_examples.Multicast.Link.{packets}
use goby3_examples.Multicast.Numbering.{transmitted}
use goby3_examples.Multicast.Exchange.{IsRequest, RoundTrips, hear_other, make_ack-src}
use goby3_examples.Multicast.Group.{Group, id_of, initiated, completed, poll, Steps, stay, later}
use goby3_examples.Multicast.Group.Sound.{update_id, initiate_id, make_ack_id}

Among-subst :
    {a b : ℤ} {x y : ModemTransmission} (log : List (ℤ × ModemTransmission))
    → a ≡ b
    → x ≡ y
    → Among (a, x) log
    → Among (b, y) log
Among-subst log e f h = rw (sym e, sym f) h

module _ (w : Wire) (reads : (m : ModemTransmission) → RoundTrips w m) where
  -- A driver hears a packet of another modem: it logs the message.
  pub hears_log :
      (g : Group) (i : ℕ) (m : ModemTransmission)
      → m.src ≢ id_of g i
      → Among (id_of g i, m) (completed w i (received false (w.serialize m)) g).log
  unfolding complete
  hears_log g i m differs =
      rw (ap (λ p. p.0) (hear_other w (g.driver i) m (reads m) differs))
        (Among-right _ g.log _ (inl refl))

  pub hears_air :
      (g : Group) (i : ℕ) (m : ModemTransmission)
      → m.src ≢ id_of g i
      → wants_ack (g.driver i) m ≡ true
      → Among
          (w.serialize (make_ack (g.driver i) m))
          (completed w i (received false (w.serialize m)) g).air
  unfolding complete
  hears_air g i m differs wants =
      rw (ap (λ p. p.1) (hear_other w (g.driver i) m (reads m) differs), wants)
        (Among-right _ g.air _ (inl refl))

  -- Two steps bring a request that is on the air to the modem that it is addressed to, and an ack
  -- back.
  answered :
      (g : Group) (i j : ℕ) (m : ModemTransmission)
      → id_of g i ≢ id_of g j
      → Among (w.serialize m) g.air
      → m.src ≡ id_of g i
      → m.dest ≡ id_of g j
      → IsRequest m
      → (h : Group) × Steps w g h
        × ((x : ModemTransmission) → Among x g.sent → Among x h.sent)
        × Among (id_of g j, m) h.log
        × Among (id_of g i, make_ack (g.driver j) m) h.log
  answered g i j m distinct on from to req =
      let ack = make_ack (g.driver j) m in
      let wants : wants_ack (g.driver j) m ≡ true = ground (arith, ==ℤ_iff m.dest (id_of g j)) in
      let differs : m.src ≢ id_of g j = λ e. distinct (cc (e, from)) in
      let back : ack.src ≢ id_of g i = λ e. distinct (cc (e, make_ack-src w (g.driver j) m)) in
      let g1 : Group = completed w j (received false (w.serialize m)) g in
      let ack_on = hears_air g j m differs wants in
      (
        completed w i (received false (w.serialize ack)) g1,
        later (later stay (poll j (received false (w.serialize m)) on))
            (poll i (received false (w.serialize ack)) ack_on),
        λ x s. s,
        Among-left _ g1.log _ (hears_log g j m differs),
        hears_log g1 i ack back,
      )

  initiate_air :
      (d : Driver) (modify request : ModemTransmission → ModemTransmission)
      (orig : ModemTransmission)
      → let m = request (prepare d (modify orig)) in
        let es = (handle_initiate_transmission w modify request d orig).1 in
        has_data m.frame ≡ true → Among (w.serialize m) (packets es) × Among m (transmitted es)
  unfolding handle_initiate_transmission start_send
  initiate_air d modify request orig h = rw h (inl refl, inl refl)

  -- Of two modems with different ids in a group that has come to any state, when the application of
  -- one transmits a data message with data in its first frame and a request for an ack, from its
  -- own id to the other's, then some steps lead to a state in which the message is transmitted, the
  -- other modem has delivered it, and the first has delivered that modem's ack of it. Protobuf
  -- reads back every message.
  pub initiate_answered :
      (g : Group) (i j : ℕ) (modify request : ModemTransmission → ModemTransmission)
      (orig : ModemTransmission)
      → let m = request (prepare (g.driver i) (modify orig)) in
        id_of g i ≢ id_of g j
        → has_data m.frame ≡ true
        → m.src ≡ id_of g i
        → m.dest ≡ id_of g j
        → IsRequest m
        → (h : Group) × Steps w (initiated w i modify request orig g) h
          × Among m h.sent
          × Among (id_of g j, m) h.log
          × Among (id_of g i, make_ack (g.driver j) m) h.log
  initiate_answered g i j modify request orig distinct full from to req =
      let m = request (prepare (g.driver i) (modify orig)) in
      let r = handle_initiate_transmission w modify request (g.driver i) orig in
      let g1 : Group = initiated w i modify request orig g in
      let same : (k : ℕ) → id_of g1 k ≡ id_of g k =
        λ k. update_id w g.driver i r.0 k (initiate_id w modify request (g.driver i) orig) in
      let (packet, told) = initiate_air (g.driver i) modify request orig full in
      let (h, steps, sent, there, back) =
        answered g1 i j m (λ e. distinct (cc (e, same i, same j)))
          (Among-right _ g.air (packets r.1) packet) (cc (from, same i)) (cc (to, same j)) req in
      (
        h,
        steps,
        sent m (Among-right m g.sent (transmitted r.1) told),
        Among-subst h.log (same j) refl there,
        Among-subst h.log (same i) (sym (make_ack_id (g.driver j) (g1.driver j) m (same j))) back,
      )
