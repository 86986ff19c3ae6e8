-- ===== src/Multicast/Numbering.antt =====
-- The frame numbers that `handle_initiate_transmission` gives over a run of calls.
use goby3_examples.Base.{
  ℕ, ◌+◌, ◌*◌, ◌≤◌, ◌<◌, ◌≡◌, refl, ◌≢◌, ◌∙◌, Option, some, none, List, [], ◌∷◌, ◌++◌, length,
  append_assoc, arith, inl, inr, Bool-cases, if◌then◌else◌,
}
use goby3_examples.Modem.{ModemTransmission}
use goby3_examples.Multicast.{
  Driver, Effect, Wire, transmit_result, start_send, prepare, handle_initiate_transmission,
  start_of, has_data,
}

abbrev reported : Effect → List ModemTransmission
reported (transmit_result m) = m ∷ []
reported _ = []

-- The messages that a list of effects reports as transmitted.
abbrev pub transmitted : List Effect → List ModemTransmission
transmitted [] = []
transmitted (e ∷ es) = reported e ++ transmitted es

-- Each message is numbered, and its frames come after `n` and after those of the messages before.
abbrev pub Apart : ℕ → List ModemTransmission → Type 0
Apart n [] = Unit
Apart n (m ∷ ms) =
    (m.frame_start ≢ none)
    × (n ≤ start_of m.frame_start)
    × Apart (start_of m.frame_start + length m.frame) ms

abbrev pub KeepsStart : (ModemTransmission → ModemTransmission) → Type 0
KeepsStart f = (m : ModemTransmission) → (f m).frame_start ≡ m.frame_start

abbrev pub Unnumbered : List ModemTransmission → Type 0
Unnumbered [] = Unit
Unnumbered (m ∷ ms) = (m.frame_start ≡ none) × Unnumbered ms

module _ (w : Wire) (modify request : ModemTransmission → ModemTransmission) where
  -- The calls of `handle_initiate_transmission` for a list of messages.
  pub initiate_all : Driver → List ModemTransmission → Driver × List Effect
  initiate_all d [] = (d, [])
  initiate_all d (m ∷ ms) =
      let (d', es) = handle_initiate_transmission w modify request d m in
      let (last, rest) = initiate_all d' ms in (last, es ++ rest)

Apart-mono : (m n : ℕ) (ms : List ModemTransmission) → m ≤ n → Apart n ms → Apart m ms
Apart-mono m n [] h a = tt
Apart-mono m n (x ∷ ms) h a = (a.0, omega arith, a.2)

pub prepare-frame_start :
    (d : Driver) (m : ModemTransmission)
    → m.frame_start ≡ none
    → (prepare d m).frame_start ≡ some d.next_frame
unfolding prepare
prepare-frame_start d m h = ground arith

transmitted-append :
    (xs ys : List Effect) → transmitted (xs ++ ys) ≡ transmitted xs ++ transmitted ys
transmitted-append [] ys = refl
transmitted-append (x ∷ xs) ys = simp (transmitted-append xs ys, append_assoc)

start_of-some : (o : Option ℕ) (n : ℕ) → o ≡ some n → (o ≢ none) × (start_of o ≡ n)
start_of-some none n h = cc
start_of-some (some k) n h = (λ e. cc, ground arith)

send-Apart :
    (w : Wire) (d : Driver) (msg : ModemTransmission) (n : ℕ) (rest : List ModemTransmission)
    → msg.frame_start ≡ some n
    → Apart (n + length msg.frame) rest
    → Apart n (transmitted (if has_data msg.frame then start_send w d msg else []) ++ rest)
unfolding start_send
send-Apart w d msg n rest h a = elim (Bool-cases (has_data msg.frame)) [
  | inl yes_data ↦
      let (numbered, e) = start_of-some msg.frame_start n h in
      rw yes_data (numbered, omega arith, rw e a)
  | inr no_data ↦ rw no_data (Apart-mono n (n + length msg.frame) rest (omega arith) a)
]

module _ (w : Wire) (modify request : ModemTransmission → ModemTransmission) where
  -- The message that a call hands to `start_send`.
  abbrev final : Driver → ModemTransmission → ModemTransmission
  final d m = request (prepare d (modify m))

  initiate-next_frame :
      (d : Driver) (m : ModemTransmission)
      → d.next_frame + length (final d m).frame < 4294967296
      → (handle_initiate_transmission w modify request d m).0.next_frame
        ≡ d.next_frame + length (final d m).frame
  unfolding handle_initiate_transmission
  initiate-next_frame d m h = omega arith

  -- One call: the frames sent begin at `next_frame`, which moves past all of them.
  initiate-Apart :
      (d : Driver) (m : ModemTransmission) (rest : List ModemTransmission)
      → KeepsStart request
      → (modify m).frame_start ≡ none
      → Apart (d.next_frame + length (final d m).frame) rest
      → Apart d.next_frame
          (transmitted (handle_initiate_transmission w modify request d m).1 ++ rest)
  unfolding handle_initiate_transmission
  initiate-Apart d m rest keeps fresh a =
      send-Apart w d (final d m) d.next_frame rest
        (keeps (prepare d (modify m)) ∙ prepare-frame_start d (modify m) fresh) a

  -- Over a run of calls on messages that carry no number, with slots that leave the number alone
  -- and a bound on the frames that they give a message, and with room below 2 ^ 32 for all of them:
  -- each message sent is numbered, its frames come after those of the messages sent before it, and
  -- the first is not below `next_frame`.
  pub initiate_all-Apart :
      (bound : ℕ) (d : Driver) (ms : List ModemTransmission)
      → KeepsStart modify
      → KeepsStart request
      → ((m : ModemTransmission) → length (request m).frame ≤ bound)
      → Unnumbered ms
      → d.next_frame + bound * length ms < 4294967296
      → Apart d.next_frame (transmitted (initiate_all w modify request d ms).1)
  unfolding initiate_all
  initiate_all-Apart bound d [] km kr b u room = tt
  initiate_all-Apart bound d (m ∷ ms) km kr b u room =
      let (d', es) = handle_initiate_transmission w modify request d m in
      let small : length (final d m).frame ≤ bound = b (prepare d (modify m)) in
      let moved : d'.next_frame ≡ d.next_frame + length (final d m).frame =
        initiate-next_frame d m (grind arith) in
      let later : Apart d'.next_frame (transmitted (initiate_all w modify request d' ms).1) =
        initiate_all-Apart bound d' ms km kr b u.1 (grind arith) in
      rw (transmitted-append es (initiate_all w modify request d' ms).1)
        (initiate-Apart d m _ kr (km m ∙ u.0) (rw moved at later))
