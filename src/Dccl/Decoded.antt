-- ===== src/Dccl/Decoded.antt =====
-- What the two programs get back from the codec.
use goby3_examples.Base.{ℕ, ◌≤◌, ◌≡◌, refl, ◌∙◌, some, [], ◌∷◌, length, arith}
use goby3_examples.Base.Int.{ℤ, pos, negsuc, ◌+ℤ◌, ◌*ℤ◌, ◌≤ℤ◌}
use goby3_examples.Base.Text.{Text, codes}
use goby3_examples.Dccl.{decoded_command, decoded_status, Codec, CodecLaws}
use goby3_examples.Dccl.DcclSimple
use goby3_examples.Dccl.TwoMessage
use goby3_examples.Dccl.TwoMessage.{command, status}

-- Half of the unit of the speed, up and down.
below : (r : ℤ) → r *ℤ 2 ≤ℤ pos 23456 *ℤ 2 +ℤ pos 100 → r ≤ℤ pos 23506
unfolding ◌*ℤ◌ ◌+ℤ◌
below (pos n) h = ground arith
below (negsuc n) h = ground arith

above : (r : ℤ) → pos 23456 *ℤ 2 ≤ℤ r *ℤ 2 +ℤ pos 100 → pos 23406 ≤ℤ r
unfolding ◌*ℤ◌ ◌+ℤ◌
above (pos n) h = ground arith
above (negsuc n) h = ground arith

module _ (d : Codec) (l : CodecLaws d) where
  whole : (unit n m : ℕ) → pos n *ℤ unit ≡ pos m → l.round unit (pos m) ≡ pos m
  whole unit n m e = let h = l.round_multiple unit (pos n) in rw e at h

  received_command :
      decoded_command l.round command
      ≡ record command { type = some (codes "goto"); goto_speed = l.round 100 (pos 23456) }
  unfolding ◌*ℤ◌
  received_command =
      rw (whole 10000 2 20000 refl, whole 10000 423 4230000 refl, whole 10000 523 5230000 refl) refl

  received_status : decoded_status l.round status ≡ status
  unfolding ◌*ℤ◌
  received_status = rw (whole 1000 2345 2345000 refl, whole 1000 4513 4513000 refl) refl

  -- Over a codec that keeps to `CodecLaws`, two_message runs to its end. The bytes that it shows
  -- before decoding are those that it encoded, and what it receives is the status that it sent and
  -- the command that it sent, with the static type set and the speed of 2.3456 moved by at most
  -- 0.005.
  pub two_message_receives :
      (bytes2 bytes3 : Text) × (speed : ℤ) × (TwoMessage.main d
        ≡ some (
            TwoMessage.passing command status
            ∷ TwoMessage.hexadecimal bytes2
            ∷ TwoMessage.hexadecimal bytes3
            ∷ TwoMessage.passed_hexadecimal bytes2
            ∷ TwoMessage.passed_hexadecimal bytes3
            ∷ TwoMessage.received
                (record command { type = some (codes "goto"); goto_speed = speed })
                status
            ∷ []))
      × (pos 23406 ≤ℤ speed)
      × (speed ≤ℤ pos 23506)
  unfolding TwoMessage.main TwoMessage.finish
  two_message_receives =
      let (bytes2, e2, d2) = l.takes_command command (omega arith) in
      let (bytes3, e3, d3) = l.takes_status status (omega arith) in
      (
        bytes2,
        bytes3,
        l.round 100 (pos 23456),
        rw (e2, e3, d2 ∙ received_command, d3 ∙ received_status) refl,
        above _ (l.round_down 100 (pos 23456)),
        below _ (l.round_up 100 (pos 23456)),
      )

  -- Over a codec that keeps to `CodecLaws`, dccl_simple gives back a line of up to 30 characters.
  pub dccl_simple_receives :
      (line : Text)
      → length line ≤ 30
      → (bytes : Text) × (DcclSimple.main d line
          ≡ some (
              DcclSimple.passing (record { telegram = line })
              ∷ DcclSimple.hexadecimal bytes
              ∷ DcclSimple.passed_hexadecimal bytes
              ∷ DcclSimple.received (record { telegram = line })
              ∷ []))
  unfolding DcclSimple.main DcclSimple.finish
  dccl_simple_receives line short =
      let (bytes, e, back) = l.takes_simple (record { telegram = line }) short in
      (bytes, rw (e, back) refl)
