-- ===== src/Examples/Queue.antt =====
-- Queue managers that put telegrams and numbers into one frame.
use goby3_examples.Base.{
  if◌then◌else◌, leb, ℕ, suc, ◌+◌, ◌≤◌, ◌≡◌, refl, ap, Option, some, List, [], ◌∷◌, ◌++◌, map,
  length, All, ◌↔◌, arith,
}
use goby3_examples.Base.Int.{ℤ, pos}
use goby3_examples.Base.Text.{Text}
use goby3_examples.Modem.{unset}
use goby3_examples.Queue.{Simple, QueueManager, Laws, fitting}
use goby3_examples.Queue.Multimessage
use goby3_examples.Queue.OnDemand
use goby3_examples.Queue.OnDemand.{
  GobyMessage, IsEncodable, OnDemandManager, calls, handle_encode_on_demand,
}
use goby3_examples.Queue.Counting
use goby3_examples.Queue.Counting.{calls-IsEncodable}
use goby3_examples.Examples.Codec.{texts, texts_back}

record Queued : Type 0 where
  entries : List Text
  waiting : List Simple

abbrev telegrams : List Simple → List Text
telegrams ms = map (λ m. m.telegram) ms

abbrev simples : List Text → List Simple
simples ts = map (λ t. record { telegram = t }) ts

abbrev in_frame : List Text → List Simple
in_frame [] = []
in_frame (f ∷ fs) = simples (texts.read f).0

abbrev room_of : Option ℤ → ℕ
room_of (some (pos n)) = n
room_of _ = 0

abbrev bytes_of : Simple → ℕ
bytes_of m = length m.telegram + 2

abbrev manager : QueueManager
manager = record {
  State = Queued;
  init = record { entries = []; waiting = [] };
  set_cfg = λ cfg s. record s { entries = cfg.message_entry };
  push_message = λ m s. record s { waiting = s.waiting ++ m ∷ [] };
  handle_modem_data_request = λ s t. (
    record s { waiting = [] },
    record t {
      frame = texts.write (telegrams (fitting bytes_of (room_of t.max_frame_bytes) s.waiting)) ∷ [];
    },
  );
  handle_modem_receive = λ s t. (s, in_frame t.frame);
}

simples-telegrams : (ms : List Simple) → simples (telegrams ms) ≡ ms
simples-telegrams [] = refl
simples-telegrams (m ∷ ms) = ap (λ t. m ∷ t) (simples-telegrams ms)

frame_back : (ms : List Simple) → in_frame (texts.write (telegrams ms) ∷ []) ≡ ms
frame_back ms = rw (texts_back (telegrams ms)) (simples-telegrams ms)

abbrev laws : Laws manager
laws = record {
  names = λ s. s.entries;
  contents = λ s. s.waiting;
  carried = λ t. in_frame t.frame;
  size = bytes_of;
  init-contents = refl;
  set_cfg-names = λ cfg s. refl;
  set_cfg-contents = λ cfg s. refl;
  push-names = λ m s. refl;
  push-contents = λ m s known short. refl;
  request-carried = λ s t room bytes one. rw bytes (frame_back (fitting bytes_of room s.waiting));
  receive-carried = λ s t. refl;
  carried-frame = λ t h e. h (ap in_frame e);
  size-bound = λ m short. omega arith;
}

abbrev pair_of : GobyMessage → Text
pair_of m = m.a ∷ m.b ∷ []

abbrev of_pair : Text → GobyMessage
of_pair (a ∷ b ∷ rest) = record { a = a; b = b }
of_pair _ = record { a = 0; b = 0 }

abbrev pairs_in : List Text → List GobyMessage
pairs_in [] = []
pairs_in (f ∷ fs) = map of_pair (texts.read f).0

-- It asks for two messages each time. The state is the number of queues.
-- Two messages, if the frame has room.
abbrev two_in : Option ℤ → ℕ
two_in (some (pos room)) = if leb 2 room then 2 else 0
two_in _ = 0

abbrev on_demand : OnDemandManager
on_demand = record {
  State = ℕ;
  init = 0;
  set_modem_id = λ id s. s;
  add_queue = λ s. suc s;
  handle_modem_data_request = λ slot s i t.
      let (ms, j) = calls slot t (two_in t.max_frame_bytes) i in
      (s, (j, record t { frame = texts.write (map pair_of ms) ∷ [] }));
  handle_modem_receive = λ s t. (s, pairs_in t.frame);
}

calls-IsEncodable_example :
    All IsEncodable (calls handle_encode_on_demand unset 200 0).0 ↔ (200 ≤ 128)
calls-IsEncodable_example = calls-IsEncodable unset 200
