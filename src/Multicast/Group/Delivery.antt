-- ===== src/Multicast/Group/Delivery.antt =====
-- Where a message comes from that a driver delivers.
use goby3_examples.Base.{
  subst, ℕ, ◌≡◌, refl, sym, ap, ◌≢◌, Bool, true, false, List, [], ◌∷◌, Among, Among-right,
  Among-append, ◌⊎◌, inl, inr, if◌then◌else◌, Bool-cases,
}
use goby3_examples.Base.Int.{ℤ, ◌==ℤ◌, ==ℤ_iff}
use goby3_examples.Base.Text.{Text}
use goby3_examples.Modem.{ModemTransmission}
use goby3_examples.Multicast.{
  Driver, Wire, Completion, sent, received, complete, make_ack, wants_ack, send_complete,
  receive_complete, start_receive,
}
use goby3_examples.Multicast.Link.{packets, delivered}
use goby3_examples.Multicast.Exchange.{RoundTrips, hear, hear_own, hear_other, make_ack-type}
use goby3_examples.Multicast.Group.{
  Group, id_of, logged, OnAir, completed, initiate, poll, Steps, stay, later, start,
}
use goby3_examples.Multicast.Group.Sound.{
  Known, Known-mono, IsSound, completed-Grows, start-IsSound, initiated-IsSound,
}

Among-one : {A : Type 0} (x y : A) → Among x (y ∷ []) → x ≡ y
Among-one x y (inl e) = sym e
Among-one x y (inr h) = absurd h

Among-if :
    {A : Type 0} (x y : A) (b : Bool) → Among x (if b then y ∷ [] else []) → (b ≡ true) × (x ≡ y)
Among-if x y true h = (refl, Among-one x y h)
Among-if x y false h = absurd h

Among-logged :
    (id j : ℤ) (m : ModemTransmission) (ms : List ModemTransmission)
    → Among (id, m) (logged j ms)
    → (id ≡ j) × Among m ms
Among-logged id j m [] h = absurd h
Among-logged id j m (x ∷ ms) (inl e) = (sym (ap (λ p. p.0) e), inl (ap (λ p. p.1) e))
Among-logged id j m (x ∷ ms) (inr h) = let (e, k) = Among-logged id j m ms h in (e, inr k)

logged-Among :
    (j : ℤ) (m : ModemTransmission) (ms : List ModemTransmission)
    → Among m ms
    → Among (j, m) (logged j ms)
logged-Among j m [] h = absurd h
logged-Among j m (x ∷ ms) (inl e) = inl (ap (λ y. (j, y)) e)
logged-Among j m (x ∷ ms) (inr h) = inr (logged-Among j m ms h)

module _ (w : Wire) (reads : (m : ModemTransmission) → RoundTrips w m) where
  hear_cases :
      (d : Driver) (m : ModemTransmission)
      → (hear w d m ≡ ([], []))
        ⊎ ((m.src ≢ d.driver_cfg.modem_id)
            × (hear w d m
                ≡ (m ∷ [], if wants_ack d m then w.serialize (make_ack d m) ∷ [] else [])))
  hear_cases d m = elim (Bool-cases (m.src ==ℤ d.driver_cfg.modem_id)) [
    | inl own ↦ inl (hear_own w d m (reads m) ((==ℤ_iff m.src d.driver_cfg.modem_id).0 own))
    | inr other ↦
        let differs : m.src ≢ d.driver_cfg.modem_id =
          λ e. cc ((==ℤ_iff m.src d.driver_cfg.modem_id).1 e) in
        inr (differs, hear_other w d m (reads m) differs)
  ]

  hear_delivered :
      (d : Driver) (m x : ModemTransmission)
      → Among x (hear w d m).0
      → (x ≡ m) × (m.src ≢ d.driver_cfg.modem_id)
  hear_delivered d m x h = elim (hear_cases d m) [
    | inl e ↦ absurd (rw (ap (λ p. p.0) e) at h)
    | inr (differs, e) ↦ (Among-one x m (rw (ap (λ p. p.0) e) at h), differs)
  ]

  hear-packets :
      (d : Driver) (m : ModemTransmission) (b : Text)
      → Among b (hear w d m).1
      → Among m (hear w d m).0 × (wants_ack d m ≡ true) × (b ≡ w.serialize (make_ack d m))
  hear-packets d m b h = elim (hear_cases d m) [
    | inl e ↦ absurd (rw (ap (λ p. p.1) e) at h)
    | inr (differs, e) ↦
        let (wants, same) = Among-if b _ (wants_ack d m) (rw (ap (λ p. p.1) e) at h) in
        (rw (ap (λ p. p.0) e) (inl refl), wants, same)
  ]

  poll-packets :
      (d : Driver) (c : Completion) (g : Group) (b : Text)
      → IsSound w g
      → OnAir g.air c
      → Among b (packets (complete w d c))
      → (orig : ModemTransmission) × Among orig (delivered (complete w d c))
        × (wants_ack d orig ≡ true)
        × (b ≡ w.serialize (make_ack d orig))
  unfolding complete send_complete receive_complete start_receive
  poll-packets d (sent error) g b s on h = absurd h
  poll-packets d (received true bytes) g b s on h = absurd h
  poll-packets d (received false bytes) g b s on h =
      let (m, e, k) = s.carried bytes on in
      let (l, wants, same) = hear-packets d m b (rw e at h) in
      (m, subst (λ x. Among m (delivered (receive_complete w d false x))) (sym e) l, wants, same)

  poll-delivered :
      (d : Driver) (c : Completion) (g : Group) (m : ModemTransmission)
      → IsSound w g
      → OnAir g.air c
      → Among m (delivered (complete w d c))
      → (m.src ≢ d.driver_cfg.modem_id) × Known g m
  unfolding complete send_complete receive_complete start_receive
  poll-delivered d (sent error) g m s on h = absurd h
  poll-delivered d (received true bytes) g m s on h = absurd h
  poll-delivered d (received false bytes) g m s on h =
      let (x, e, k) = s.carried bytes on in
      let (same, differs) = hear_delivered d x m (rw e at h) in rw same (differs, k)

  completed-IsSound :
      (i : ℕ) (c : Completion) (g : Group)
      → OnAir g.air c
      → IsSound w g
      → IsSound w (completed w i c g)
  completed-IsSound i c g on s =
      let d = g.driver i in
      let es = complete w d c in
      let up = completed-Grows w i c g in
      record {
        carried = λ b h. elim (Among-append b g.air (packets es) h) [
          | inl old ↦ let (m, e, k) = s.carried b old in (m, e, Known-mono g _ m up k)
          | inr new ↦
              let (m, l, wants, e) = poll-packets d c g b s on new in
              let here = logged-Among (id_of g i) m (delivered es) l in
              (
                make_ack d m,
                e,
                inr (
                  i,
                  m,
                  Among-right _ g.log (logged (id_of g i) (delivered es)) here,
                  wants,
                  refl,
                ),
              )
        ];
        known = λ id m h. elim (Among-append (id, m) g.log (logged (id_of g i) (delivered es)) h) [
          | inl old ↦ let (differs, k) = s.known id m old in (differs, Known-mono g _ m up k)
          | inr new ↦
              let (same, l) = Among-logged id (id_of g i) m (delivered es) new in
              let (differs, k) = poll-delivered d c g m s on l in
              (rw same differs, Known-mono g _ m up k)
        ];
      }

  Steps-IsSound : (g h : Group) → IsSound w g → Steps w g h → IsSound w h
  Steps-IsSound g h s stay = s
  Steps-IsSound g h s (later steps (initiate i modify request orig)) =
      initiated-IsSound w i modify request orig _ (Steps-IsSound g _ s steps)
  Steps-IsSound g h s (later steps (poll i c on)) =
      completed-IsSound i c _ on (Steps-IsSound g _ s steps)

  no_request : (d e : Driver) (m : ModemTransmission) → wants_ack d (make_ack e m) ≡ false
  no_request d e m = rw (make_ack-type w e m) refl

  -- From a start with nothing on the air, through any steps of any drivers: a message that a modem
  -- delivers comes from another modem, and either an application transmitted it, or it is the ack
  -- of a driver for a message that this driver delivered, that asked it for an ack and that an
  -- application transmitted. Protobuf reads back every message.
  pub reached_delivered :
      (drivers : ℕ → Driver) (g : Group) (id : ℤ) (m : ModemTransmission)
      → Steps w (start drivers) g
      → Among (id, m) g.log
      → (m.src ≢ id)
        × (Among m g.sent
            ⊎ ((i : ℕ) × (orig : ModemTransmission) × Among (id_of g i, orig) g.log
                × (wants_ack (g.driver i) orig ≡ true)
                × (m ≡ make_ack (g.driver i) orig)
                × Among orig g.sent))
  reached_delivered drivers g id m steps h =
      let s = Steps-IsSound (start drivers) g (start-IsSound w drivers) steps in
      let (differs, k) = s.known id m h in
      (
        differs,
        elim k [
          | inl by_app ↦ inl by_app
          | inr (i, orig, l, wants, e) ↦ inr (
            i,
            orig,
            l,
            wants,
            e,
            elim (s.known (id_of g i) orig l).1 [
              | inl by_app ↦ by_app
              | inr (j, x, _, _, ack) ↦ cc (no_request (g.driver i) (g.driver j) x, wants, ack)
            ],
          )
        ],
      )
