-- ===== src/Queue/Multimessage.antt =====
-- src/components/acomms/queue/multimessage/multimessage.cpp: two messages, looped back in one frame.
-- The set-up of the log is left out.
use goby3_examples.Base.{Option, none, some, List, [], ◌∷◌, ◌++◌, map}
use goby3_examples.Base.Int.{pos}
use goby3_examples.Base.Text.{Text, codes}
use goby3_examples.Modem.{ModemTransmission, unset}
use goby3_examples.Queue.{
  Simple, QueueManager, Output, pushing, received, contents, requested, data_as_hex, first_frame,
}

abbrev pub hello_1 : Simple
hello_1 = record { telegram = codes "hello 1!" }

abbrev pub hello_2 : Simple
hello_2 = record { telegram = codes "hello 2!" }

abbrev pub request_msg : ModemTransmission
request_msg = record unset { max_frame_bytes = some (pos 64); max_num_frames = some 1 }

-- `main` from the request on, behind what it has put out before.
unfoldable pub finish :
    (q : QueueManager)
    → List (Output q.State)
    → q.State
    → ModemTransmission
    → Option Text
    → Option (List (Output q.State))
finish q before s t none = none
finish q before s t (some bytes) =
    some (before ++ requested t ∷ data_as_hex bytes ∷ map received (q.handle_modem_receive s t).1)

unfoldable pub main : (q : QueueManager) → Option (List (Output q.State))
unfolding finish
main q =
    let s = q.set_cfg (record { modem_id = pos 1; message_entry = codes "Simple" ∷ [] }) q.init in
    let s1 = q.push_message hello_1 s in
    let s2 = q.push_message hello_2 s1 in
    let (s3, t) = q.handle_modem_data_request s2 request_msg in
    finish q (pushing hello_1 ∷ pushing hello_2 ∷ contents s2 ∷ []) s3 t (first_frame t.frame)
