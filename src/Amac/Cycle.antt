-- ===== src/Amac/Cycle.antt =====
-- The cycle before and after it grows, and the order of the calls.
use goby3_examples.Base.{
  ℕ, zero, suc, ◌≡◌, Bool, true, false, some, List, [], ◌∷◌, ◌++◌, append_assoc,
}
use goby3_examples.Base.Int.{pos}
use goby3_examples.Modem.{ModemTransmission, driver_specific, remus_lbl_ranging}
use goby3_examples.Amac.{
  Call, startup, do_work, edit, update, new_slot, add_slots, work_loop, calls,
}

-- Three slots are added behind the others, which stay: the new one, and two copies of the first,
-- one for modem 3 and one that ranges.
pub add_slots-append :
    (front : ModemTransmission) (slots : List ModemTransmission)
    → add_slots (front ∷ slots)
      ≡ (front ∷ slots)
        ++ new_slot
          ∷ record front { src = pos 3 }
          ∷ record front { type = driver_specific; micromodem_type = some remus_lbl_ranging }
          ∷ []
unfolding add_slots
add_slots-append front slots = simp append_assoc

-- `do_work` is called only on a manager that has been started and, if its list was changed since,
-- updated.
pub data IsOrdered : Bool → List Call → Type 0 where
  done : {fresh : Bool} → IsOrdered fresh []
  starts : {fresh : Bool} {cs : List Call} → IsOrdered true cs → IsOrdered fresh (startup ∷ cs)
  works : {cs : List Call} → IsOrdered true cs → IsOrdered true (do_work ∷ cs)
  edits : {fresh : Bool} {cs : List Call} → IsOrdered false cs → IsOrdered fresh (edit ∷ cs)
  updates : {fresh : Bool} {cs : List Call} → IsOrdered true cs → IsOrdered fresh (update ∷ cs)

work_loop-IsOrdered :
    (n : ℕ) (rest : List Call) → IsOrdered true rest → IsOrdered true (work_loop n ++ rest)
unfolding work_loop
work_loop-IsOrdered zero rest h = h
work_loop-IsOrdered (suc n) rest h = works (work_loop-IsOrdered n rest h)

work_loop_end : (n : ℕ) → IsOrdered true (work_loop n)
unfolding work_loop
work_loop_end zero = done
work_loop_end (suc n) = works (work_loop_end n)

-- However long the last loop runs, the program never works on a changed cycle before the update
-- that its comment asks for.
pub calls-IsOrdered : (rounds : ℕ) → IsOrdered false (calls rounds)
unfolding calls
calls-IsOrdered rounds =
    starts (work_loop-IsOrdered 149 _ (edits (edits (edits (updates (work_loop_end rounds))))))
