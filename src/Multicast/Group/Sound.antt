-- ===== src/Multicast/Group/Sound.antt =====
-- An invariant of a group: what is on the air and what was delivered is known.
use goby3_examples.Base.{
  ℕ, ◌≡◌, refl, sym, ap, ◌≢◌, ◌∙◌, Bool, true, false, [], Among, Among-left, Among-right,
  Among-append, ◌==◌, ◌⊎◌, inl, inr, if◌then◌else◌, Bool-cases, arith,
}
use goby3_examples.Base.Int.{ℤ}
use goby3_examples.Base.Text.{Text}
use goby3_examples.Modem.{ModemTransmission}
use goby3_examples.Multicast.{
  Driver, Wire, Completion, complete, handle_initiate_transmission, make_ack, wants_ack, start_send,
}
use goby3_examples.Multicast.Numbering.{transmitted}
use goby3_examples.Multicast.Link.{packets, delivered}
use goby3_examples.Multicast.Group.{Group, id_of, update, logged, initiated, completed, start}

-- The message is the ack of a driver for a message that it delivered and that asked it for one.
abbrev pub Answers : Group → ModemTransmission → Type 0
Answers g m =
    (i : ℕ) × (orig : ModemTransmission) × Among (id_of g i, orig) g.log
    × (wants_ack (g.driver i) orig ≡ true)
    × (m ≡ make_ack (g.driver i) orig)

-- An application transmitted the message, or it is an answer.
abbrev pub Known : Group → ModemTransmission → Type 0
Known g m = Among m g.sent ⊎ Answers g m

pub record Grows (g h : Group) : Type 0 where
  same_id : (i : ℕ) → id_of h i ≡ id_of g i
  more_sent : (m : ModemTransmission) → Among m g.sent → Among m h.sent
  more_log : (p : ℤ × ModemTransmission) → Among p g.log → Among p h.log

pub make_ack_id :
    (d e : Driver) (m : ModemTransmission)
    → e.driver_cfg.modem_id ≡ d.driver_cfg.modem_id
    → make_ack d m ≡ make_ack e m
unfolding make_ack
make_ack_id d e m h = rw h refl

pub Known-mono : (g h : Group) (m : ModemTransmission) → Grows g h → Known g m → Known h m
Known-mono g h m up (inl s) = inl (up.more_sent m s)
Known-mono g h m up (inr (i, orig, l, wants, e)) = inr (
  i,
  orig,
  rw (up.same_id i) (up.more_log _ l),
  rw (up.same_id i) wants,
  e ∙ make_ack_id (g.driver i) (h.driver i) orig (up.same_id i),
)

module _ (w : Wire) where
  -- Each packet on the air is one of a known message, and each delivered message is known and
  -- comes from another modem.
  pub record IsSound (g : Group) : Type 0 where
    pub carried :
        (b : Text) → Among b g.air → (m : ModemTransmission) × (b ≡ w.serialize m) × Known g m
    pub known : (id : ℤ) (m : ModemTransmission) → Among (id, m) g.log → (m.src ≢ id) × Known g m

  pub initiate_id :
      (modify request : ModemTransmission → ModemTransmission) (d : Driver)
      (orig : ModemTransmission)
      → (handle_initiate_transmission w modify request d orig).0.driver_cfg ≡ d.driver_cfg
  unfolding handle_initiate_transmission
  initiate_id modify request d orig = refl

  send-packets :
      (yes : Bool) (d : Driver) (m : ModemTransmission) (b : Text)
      → let es = if yes then start_send w d m else [] in
        Among b (packets es)
        → (x : ModemTransmission) × (b ≡ w.serialize x) × Among x (transmitted es)
  unfolding start_send
  send-packets true d m b (inl e) = (m, sym e, inl refl)
  send-packets true d m b (inr h) = absurd h
  send-packets false d m b h = absurd h

  initiate-packets :
      (modify request : ModemTransmission → ModemTransmission) (d : Driver)
      (orig : ModemTransmission) (b : Text)
      → let es = (handle_initiate_transmission w modify request d orig).1 in
        Among b (packets es)
        → (m : ModemTransmission) × (b ≡ w.serialize m) × Among m (transmitted es)
  unfolding handle_initiate_transmission
  initiate-packets modify request d orig b h = send-packets _ d _ b h

  pub update_id :
      (f : ℕ → Driver) (i : ℕ) (d : Driver) (j : ℕ)
      → d.driver_cfg ≡ (f i).driver_cfg
      → (update f i d j).driver_cfg.modem_id ≡ (f j).driver_cfg.modem_id
  update_id f i d j h = elim (Bool-cases (i == j)) [
    | inl e ↦ let same : i ≡ j = ground arith in rw e (ap (λ c. c.modem_id) h ∙ rw same refl)
    | inr e ↦ rw e refl
  ]

  initiated-Grows :
      (i : ℕ) (modify request : ModemTransmission → ModemTransmission) (orig : ModemTransmission)
      (g : Group)
      → Grows g (initiated w i modify request orig g)
  initiated-Grows i modify request orig g =
      let r = handle_initiate_transmission w modify request (g.driver i) orig in
      record {
        same_id = λ j. update_id g.driver i r.0 j (initiate_id modify request (g.driver i) orig);
        more_sent = λ m h. Among-left m g.sent (transmitted r.1) h;
        more_log = λ p h. h;
      }

  pub completed-Grows : (i : ℕ) (c : Completion) (g : Group) → Grows g (completed w i c g)
  completed-Grows i c g = record {
    same_id = λ j. refl;
    more_sent = λ m h. h;
    more_log =
        λ p h. Among-left p g.log (logged (id_of g i) (delivered (complete w (g.driver i) c))) h;
  }

  pub start-IsSound : (drivers : ℕ → Driver) → IsSound (start drivers)
  start-IsSound drivers = record { carried = λ b h. absurd h; known = λ id m h. absurd h }

  pub initiated-IsSound :
      (i : ℕ) (modify request : ModemTransmission → ModemTransmission) (orig : ModemTransmission)
      (g : Group)
      → IsSound g
      → IsSound (initiated w i modify request orig g)
  initiated-IsSound i modify request orig g s =
      let r = handle_initiate_transmission w modify request (g.driver i) orig in
      let up = initiated-Grows i modify request orig g in
      record {
        carried = λ b h. elim (Among-append b g.air (packets r.1) h) [
          | inl old ↦ let (m, e, k) = s.carried b old in (m, e, Known-mono g _ m up k)
          | inr new ↦
              let (m, e, k) = initiate-packets modify request (g.driver i) orig b new in
              (m, e, inl (Among-right m g.sent (transmitted r.1) k))
        ];
        known = λ id m h. let (other, k) = s.known id m h in (other, Known-mono g _ m up k);
      }
