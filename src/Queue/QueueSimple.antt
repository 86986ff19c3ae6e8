-- ===== src/Queue/QueueSimple.antt =====
-- src/components/acomms/queue/queue_simple/queue_simple.cpp: one message, pushed and looped back.
use goby3_examples.Base.{Option, none, some, List, [], ◌∷◌, ◌++◌, map}
use goby3_examples.Base.Int.{pos}
use goby3_examples.Base.Text.{Text, codes}
use goby3_examples.Modem.{ModemTransmission, unset}
use goby3_examples.Queue.{
  Simple, QueueManager, Output, pushing, received, contents, requested, data_as_hex, first_frame,
}

abbrev pub hello : Simple
hello = record { telegram = codes "hello all!" }

abbrev pub request_msg : ModemTransmission
request_msg = record unset { max_frame_bytes = some (pos 32); max_num_frames = some 1 }

-- `main` from the request on, behind what it has put out before.
unfoldable pub finish :
    (q : QueueManager)
    → List (Output q.State)
    → q.State
    → ModemTransmission
    → Option Text
    → Option (List (Output q.State))
finish q before s t none = none
finish q before s t (some bytes) =
    some (before ++ requested t ∷ data_as_hex bytes ∷ map received (q.handle_modem_receive s t).1)

unfoldable pub main : (q : QueueManager) → Option (List (Output q.State))
unfolding finish
main q =
    let s = q.set_cfg (record { modem_id = pos 1; message_entry = codes "Simple" ∷ [] }) q.init in
    let s1 = q.push_message hello s in
    let (s2, t) = q.handle_modem_data_request s1 request_msg in
    finish q (pushing hello ∷ contents s1 ∷ []) s2 t (first_frame t.frame)
