-- ===== src/Multicast/Acks.antt =====
-- The acknowledgment that `receive_message` makes: which frames it names.
use goby3_examples.Base.{ℕ, ◌+◌, ◌≤◌, ◌<◌, ◌≡◌, refl, List, [], ◌∷◌, length, arith}
use goby3_examples.Base.Int.{ℤ, pos, ◌+ℤ◌, ◌-ℤ◌}
use goby3_examples.Base.Text.{Text}
use goby3_examples.Modem.{ModemTransmission}
use goby3_examples.Multicast.{Driver, acked_frames, start_of, make_ack}

-- The number of each frame of a message whose first frame has the given number.
abbrev pub frame_numbers : ℕ → List Text → List ℤ
frame_numbers start [] = []
frame_numbers start (f ∷ fs) = pos start ∷ frame_numbers (start + 1) fs

acked_frames-eq :
    (fs : List Text) (start : ℕ)
    → acked_frames (length fs) (pos start) (pos (start + length fs)) ≡ frame_numbers start fs
unfolding acked_frames ◌+ℤ◌
acked_frames-eq [] start = refl
acked_frames-eq (f ∷ fs) start = ground (arith, acked_frames-eq fs (start + 1))

-- An ack names each frame of the message, in order and once, if the numbers stay below 2 ^ 31.
pub make_ack-acked_frame :
    (d : Driver) (msg : ModemTransmission)
    → start_of msg.frame_start + length msg.frame < 2147483648
    → (make_ack d msg).acked_frame ≡ frame_numbers (start_of msg.frame_start) msg.frame
unfolding make_ack ◌-ℤ◌
make_ack-acked_frame d msg h = ground (arith, acked_frames-eq msg.frame (start_of msg.frame_start))

-- A message whose frame numbers begin below 2 ^ 31 and end at 2 ^ 31 or above, but below 2 ^ 32, is
-- acknowledged with no frame at all.
pub make_ack_overflow :
    (d : Driver) (msg : ModemTransmission)
    → start_of msg.frame_start < 2147483648
    → 2147483648 ≤ start_of msg.frame_start + length msg.frame
    → start_of msg.frame_start + length msg.frame < 4294967296
    → (make_ack d msg).acked_frame ≡ []
unfolding make_ack ◌-ℤ◌ acked_frames
make_ack_overflow d msg low high fits = ground arith
