-- ===== src/Dccl/DcclSimple.antt =====
-- dccl_simple/dccl_simple.cpp: a line from the user, encoded and decoded.
use goby3_examples.Base.{Option, none, some, List, [], ◌∷◌}
use goby3_examples.Base.Text.{Text}
use goby3_examples.Dccl.{Simple, Codec}

pub data Output : Type 0 where
  passing received : Simple → Output
  hexadecimal passed_hexadecimal : Text → Output

-- `main` from the call of `encode` on, which may throw.
unfoldable pub finish : Codec → Simple → Option Text → Option (List Output)
finish d message none = none
finish d message (some bytes) = some (
    passing message
    ∷ hexadecimal bytes
    ∷ passed_hexadecimal bytes
    ∷ received (d.decode_simple bytes)
    ∷ [])

-- The line that `getline` reads is given.
unfoldable pub main : Codec → Text → Option (List Output)
unfolding finish
main d line =
    let message : Simple = record { telegram = line } in finish d message (d.encode_simple message)
