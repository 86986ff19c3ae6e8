-- ===== src/Examples/Publishers.antt =====
-- Three rounds of same_group, as vehicle 11.
use goby3_examples.Base.{◌*◌, All, ◌↔◌}
use goby3_examples.Base.Int.{pos}
use goby3_examples.Publishers.{same_group, rounds}
use goby3_examples.Publishers.Rounds.{Passes, HasId, rounds-Passes}

rounds-Passes_example :
    All Passes (rounds (same_group (pos 11)) (λ k. k * 7) 3 0) ↔ HasId (same_group (pos 11))
rounds-Passes_example = rounds-Passes (same_group (pos 11)) (λ k. k * 7) 2 0
