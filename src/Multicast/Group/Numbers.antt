-- ===== src/Multicast/Group/Numbers.antt =====
-- Frame numbers in a group: what a message's numbers are, as long as they stay below 2 ^ 31.
use goby3_examples.Base.{
  ℕ, ◌+◌, ◌≤◌, ◌<◌, ◌≡◌, sym, ap, ◌∙◌, Bool, true, false, none, [], Among, Among-append, ◌==◌, ◌⊎◌,
  inl, inr, if◌then◌else◌, Bool-cases, ==_iff, length, arith,
}
use goby3_examples.Modem.{ModemTransmission, is_data}
use goby3_examples.Multicast.{
  Driver, Wire, Completion, prepare, handle_initiate_transmission, start_of, start_send,
}
use goby3_examples.Multicast.Numbering.{transmitted, KeepsStart, prepare-frame_start}
use goby3_examples.Multicast.Group.{
  Group, id_of, OnAir, initiated, completed, Steps, stay, later, initiate, poll, start,
}
use goby3_examples.Multicast.Group.Sound.{initiate_id, update_id}

abbrev pub first : ModemTransmission → ℕ
first m = start_of m.frame_start

-- The number after those of the message's frames.
abbrev pub stop : ModemTransmission → ℕ
stop m = first m + length m.frame

abbrev pub final :
    (ModemTransmission → ModemTransmission)
    → (ModemTransmission → ModemTransmission)
    → Driver
    → ModemTransmission
    → ModemTransmission
final modify request d orig = request (prepare d (modify orig))

-- The application asks for data without a number, the slots leave the number alone, the message that
-- goes out is the modem's own, and its numbers stay below 2 ^ 31.
pub record IsTidy (d : Driver) (modify request : ModemTransmission → ModemTransmission)
    (orig : ModemTransmission) : Type 0 where
  pub keeps_modify : KeepsStart modify
  pub keeps_request : KeepsStart request
  pub fresh : orig.frame_start ≡ none
  pub own : (final modify request d orig).src ≡ d.driver_cfg.modem_id
  pub plain : is_data (final modify request d orig).type ≡ true
  pub room : d.next_frame + length (final modify request d orig).frame < 2147483648

module _ (w : Wire) where
  -- Steps in which every application is tidy.
  pub data TidySteps (g : Group) : Group → Type 0 where
    stays : TidySteps g g
    initiates :
        {h : Group} (i : ℕ) (modify request : ModemTransmission → ModemTransmission)
        (orig : ModemTransmission)
        → TidySteps g h
        → IsTidy (h.driver i) modify request orig
        → TidySteps g (initiated w i modify request orig h)
    polls :
        {h : Group} (i : ℕ) (c : Completion)
        → TidySteps g h
        → OnAir h.air c
        → TidySteps g (completed w i c h)

  pub steps_of : (g h : Group) → TidySteps g h → Steps w g h
  steps_of g h stays = stay
  steps_of g h (initiates {h = k} i modify request orig s t) =
      later (steps_of g k s) (initiate i modify request orig)
  steps_of g h (polls {h = k} i c s on) = later (steps_of g k s) (poll i c on)

-- Messages of one modem have no number in common, unless they are one message.
pub record IsNumbered (g : Group) : Type 0 where
  pub distinct : (i j : ℕ) → id_of g i ≡ id_of g j → i ≡ j
  pub below :
      (i : ℕ) (m : ModemTransmission)
      → Among m g.sent
      → m.src ≡ id_of g i
      → stop m ≤ (g.driver i).next_frame
  pub low : (m : ModemTransmission) → Among m g.sent → stop m < 2147483648
  pub plain : (m : ModemTransmission) → Among m g.sent → is_data m.type ≡ true
  pub apart :
      (m n : ModemTransmission)
      → Among m g.sent
      → Among n g.sent
      → m.src ≡ n.src
      → (m ≡ n) ⊎ ((stop m ≤ first n) ⊎ (stop n ≤ first m))

final-first :
    (d : Driver) (modify request : ModemTransmission → ModemTransmission) (orig : ModemTransmission)
    → IsTidy d modify request orig
    → first (final modify request d orig) ≡ d.next_frame
final-first d modify request orig t =
    let numbered = prepare-frame_start d (modify orig) (t.keeps_modify orig ∙ t.fresh) in
    ap start_of (t.keeps_request (prepare d (modify orig)) ∙ numbered)

module _ (w : Wire) where
  sent-one :
      (yes : Bool) (d : Driver) (m x : ModemTransmission)
      → Among m (transmitted (if yes then start_send w d x else []))
      → m ≡ x
  unfolding start_send
  sent-one true d m x (inl e) = sym e
  sent-one true d m x (inr h) = absurd h
  sent-one false d m x h = absurd h

  new-final :
      (d : Driver) (modify request : ModemTransmission → ModemTransmission)
      (orig m : ModemTransmission)
      → Among m (transmitted (handle_initiate_transmission w modify request d orig).1)
      → m ≡ final modify request d orig
  unfolding handle_initiate_transmission
  new-final d modify request orig m h = sent-one _ d m _ h

  next-frame :
      (d : Driver) (modify request : ModemTransmission → ModemTransmission)
      (orig : ModemTransmission)
      → IsTidy d modify request orig
      → (handle_initiate_transmission w modify request d orig).0.next_frame
        ≡ d.next_frame + length (final modify request d orig).frame
  unfolding handle_initiate_transmission
  next-frame d modify request orig t = let r = t.room in omega arith

  module _ (g : Group) (i : ℕ) (modify request : ModemTransmission → ModemTransmission)
      (orig : ModemTransmission) (n : IsNumbered g)
      (t : IsTidy (g.driver i) modify request orig) where
    abbrev h : Group
    h = initiated w i modify request orig g

    abbrev msg : ModemTransmission
    msg = final modify request (g.driver i) orig

    same_id : (j : ℕ) → id_of h j ≡ id_of g j
    same_id j = update_id w g.driver i _ j (initiate_id w modify request (g.driver i) orig)

    old_or_new : (m : ModemTransmission) → Among m h.sent → Among m g.sent ⊎ (m ≡ msg)
    old_or_new m s = elim (Among-append m g.sent _ s) [
      | inl old ↦ inl old
      | inr new ↦ inr (new-final (g.driver i) modify request orig m new)
    ]

    -- The next number of a driver does not fall, and that of the sender is the message's end.
    next_grows : (j : ℕ) → (g.driver j).next_frame ≤ (h.driver j).next_frame
    next_grows j = elim (Bool-cases (i == j)) [
      | inl e ↦
          let same : i ≡ j = ground arith in
          let moved = next-frame (g.driver i) modify request orig t in
          rw (e, moved) (rw (sym same) (omega arith))
      | inr e ↦ rw e (omega arith)
    ]

    next_there : (j : ℕ) → i ≡ j → stop msg ≤ (h.driver j).next_frame
    next_there j same =
        let here : (i == j) ≡ true = (==_iff i j).1 same in
        let moved = next-frame (g.driver i) modify request orig t in
        let begins = final-first (g.driver i) modify request orig t in rw here (omega arith)

    before_new : (m : ModemTransmission) → Among m g.sent → m.src ≡ msg.src → stop m ≤ first msg
    before_new m s e =
        rw (final-first (g.driver i) modify request orig t) (n.below i m s (e ∙ t.own))

    pub initiated-IsNumbered : IsNumbered h
    initiated-IsNumbered = record {
      distinct = λ j k e. n.distinct j k (sym (same_id j) ∙ e ∙ same_id k);
      below = λ j m s e. elim (old_or_new m s) [
        | inl old ↦
            let low = n.below j m old (e ∙ same_id j) in let grows = next_grows j in omega arith
        | inr new ↦
            let owner = sym t.own ∙ (sym (ap (λ y. y.src) new) ∙ (e ∙ same_id j)) in
            rw new (next_there j (n.distinct i j owner))
      ];
      low = λ m s. elim (old_or_new m s) [
        | inl old ↦ n.low m old
        | inr new ↦
            let begins = final-first (g.driver i) modify request orig t in
            let room = t.room in rw new (omega arith)
      ];
      plain = λ m s. elim (old_or_new m s) [ inl old ↦ n.plain m old | inr new ↦ rw new t.plain ];
      apart = λ m x s r e. elim (old_or_new m s) [
        | inl old ↦ elim (old_or_new x r) [
          | inl older ↦ n.apart m x old older e
          | inr new ↦ inr (inl (rw new (before_new m old (e ∙ ap (λ y. y.src) new))))
        ]
        | inr new ↦ elim (old_or_new x r) [
          | inl old ↦ inr (inr (rw new (before_new x old (sym e ∙ ap (λ y. y.src) new))))
          | inr newer ↦ inl (new ∙ sym newer)
        ]
      ];
    }

  completed-IsNumbered :
      (i : ℕ) (c : Completion) (g : Group) → IsNumbered g → IsNumbered (completed w i c g)
  completed-IsNumbered i c g n = record {
    distinct = n.distinct;
    below = n.below;
    low = n.low;
    plain = n.plain;
    apart = n.apart;
  }

  start-IsNumbered :
      (drivers : ℕ → Driver)
      → ((i j : ℕ) → id_of (start drivers) i ≡ id_of (start drivers) j → i ≡ j)
      → IsNumbered (start drivers)
  start-IsNumbered drivers distinct = record {
    distinct = distinct;
    below = λ i m s e. absurd s;
    low = λ m s. absurd s;
    plain = λ m s. absurd s;
    apart = λ m x s r e. absurd s;
  }

  pub reached-IsNumbered :
      (drivers : ℕ → Driver) (g : Group)
      → ((i j : ℕ) → id_of (start drivers) i ≡ id_of (start drivers) j → i ≡ j)
      → TidySteps w (start drivers) g
      → IsNumbered g
  reached-IsNumbered drivers g distinct stays = start-IsNumbered drivers distinct
  reached-IsNumbered drivers g distinct (initiates {h = k} i modify request orig s t) =
      initiated-IsNumbered k i modify request orig (reached-IsNumbered drivers k distinct s) t
  reached-IsNumbered drivers g distinct (polls {h = k} i c s on) =
      completed-IsNumbered i c k (reached-IsNumbered drivers k distinct s)
