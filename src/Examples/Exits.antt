-- ===== src/Examples/Exits.antt =====
-- A chat whose driver cannot be started.
use goby3_examples.Base.{◌≡◌, ◌↔◌, true, some, none, List, [], ◌∷◌}
use goby3_examples.Base.Text.{Text, codes}
use goby3_examples.Chat.{read_arguments}
use goby3_examples.Chat.Main.{at_driver, main}
use goby3_examples.Chat.Exits.{IsCode, main-IsCode}
use goby3_examples.Examples.Chat.{screen}

abbrev arguments : List Text
arguments = codes "chat" ∷ codes "/dev/ttyS0" ∷ codes "1" ∷ codes "2" ∷ codes "log" ∷ []

main-IsCode_example :
    let done = main (λ _. true) arguments (some at_driver) 24 80 screen [] in
    IsCode done.exit_code (read_arguments (λ _. true) arguments) (some at_driver) []
    × ((done.setup ≡ []) ↔ (read_arguments (λ _. true) arguments ≡ none))
main-IsCode_example = main-IsCode (λ _. true) arguments (some at_driver) 24 80 screen []
