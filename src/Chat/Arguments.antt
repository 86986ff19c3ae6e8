-- ===== src/Chat/Arguments.antt =====
-- What `main` makes of its arguments.
use goby3_examples.Base.{◌≡◌, Bool, true, some, [], ◌∷◌}
use goby3_examples.Base.Int.{ℤ}
use goby3_examples.Base.Text.{Text, to_string_ℤ, IsInt, stoi-to_string}
use goby3_examples.Chat.{read_arguments}

-- Five arguments with the decimal numerals of two ints, of either sign, and a log file that opens
-- are accepted, and the ids are those two ints.
pub read_arguments-to_string :
    (can_open : Text → Bool) (name port log : Text) (a b : ℤ)
    → IsInt a
    → IsInt b
    → can_open log ≡ true
    → read_arguments can_open (name ∷ port ∷ to_string_ℤ a ∷ to_string_ℤ b ∷ log ∷ [])
      ≡ some (record { serial_port = port; my_id = a; buddy_id = b; log_file = log })
unfolding read_arguments
read_arguments-to_string can_open name port log a b ha hb opens =
    rw (stoi-to_string a ha, stoi-to_string b hb) (rw opens)
