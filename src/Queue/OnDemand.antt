-- ===== src/Queue/OnDemand.antt =====
-- src/components/acomms/queue/encode_on_demand/encode_on_demand.cpp: messages that are made when the
-- modem asks for data.
--
-- The queue manager calls the slot of `signal_data_on_demand` as often as it sees fit; the slot's
-- `static int i` is passed on from call to call, without the overflow of an int. What the slot
-- prints is left out.
use goby3_examples.Base.{
  ℕ, zero, suc, ◌+◌, ◌≤◌, ◌≡◌, ◌≢◌, Option, none, some, List, [], ◌∷◌, ◌++◌, map, All,
}
use goby3_examples.Base.Int.{ℤ, pos}
use goby3_examples.Base.Text.{Text}
use goby3_examples.Modem.{ModemTransmission, unset}
use goby3_examples.Queue.{first_frame}

-- The message of on_demand.proto.
pub record GobyMessage : Type 0 where
  pub a : ℕ
  pub b : ℕ

-- The bounds of on_demand.proto.
abbrev pub IsEncodable : GobyMessage → Type 0
IsEncodable m = (m.a ≤ 254) × (m.b ≤ 510)

-- `handle_encode_on_demand` reads nothing of the request.
unfoldable pub handle_encode_on_demand : ModemTransmission → ℕ → GobyMessage × ℕ
handle_encode_on_demand request i = (record { a = i; b = i + 1 }, i + 2)

-- A slot of `signal_data_on_demand`, with the static counter that it uses.
abbrev pub Slot : Type 0
Slot = ModemTransmission → ℕ → GobyMessage × ℕ

pub record OnDemandManager : Type 1 where
  pub State : Type 0
  pub init : State
  pub set_modem_id : ℤ → State → State
  pub add_queue : State → State
  pub handle_modem_data_request :
      Slot → State → ℕ → ModemTransmission → State × (ℕ × ModemTransmission)
  pub handle_modem_receive : State → ModemTransmission → State × List GobyMessage

-- The messages of so many calls of a slot, and the counter after them.
unfoldable pub calls : Slot → ModemTransmission → ℕ → ℕ → List GobyMessage × ℕ
calls slot t zero i = ([], i)
calls slot t (suc n) i = let (m, j) = slot t i in let (ms, k) = calls slot t n j in (m ∷ ms, k)

-- With a queue added, a request for one frame calls the slot: once or more if the frame has the 32
-- bytes that on_demand.proto allows a message, and no more often than the frame has bytes. It is
-- given the messages of these calls if all are within the bounds of on_demand.proto.
pub record OnDemandLaws (q : OnDemandManager) : Type 0 where
  pub queues : q.State → ℕ
  pub carried : ModemTransmission → List GobyMessage
  pub count : q.State → ModemTransmission → ℕ
  pub add_queue-queues : (s : q.State) → queues (q.add_queue s) ≡ suc (queues s)
  pub count-positive :
      (s : q.State) (t : ModemTransmission) (room : ℕ)
      → t.max_frame_bytes ≡ some (pos room)
      → t.max_num_frames ≡ some 1
      → 32 ≤ room
      → 1 ≤ queues s
      → 1 ≤ count s t
  pub count-bytes :
      (s : q.State) (t : ModemTransmission) (room : ℕ)
      → t.max_frame_bytes ≡ some (pos room)
      → t.max_num_frames ≡ some 1
      → count s t ≤ room
  pub request-calls :
      (slot : Slot) (s : q.State) (i : ℕ) (t : ModemTransmission)
      → 1 ≤ queues s
      → All IsEncodable (calls slot t (count s t) i).0
      → let (_, (j, u)) = q.handle_modem_data_request slot s i t in
        (carried u, j) ≡ calls slot t (count s t) i
  pub receive-carried :
      (s : q.State) (t : ModemTransmission) → (q.handle_modem_receive s t).1 ≡ carried t
  pub carried-frame : (t : ModemTransmission) → carried t ≢ [] → t.frame ≢ []

pub data OnDemandOutput (State : Type 0) : Type 0 where
  contents : State → OnDemandOutput State
  requesting : ModemTransmission → OnDemandOutput State
  data_message : ModemTransmission → OnDemandOutput State
  data_as_hex : Text → OnDemandOutput State
  received : GobyMessage → OnDemandOutput State

-- `main` from the answer to the request on. The value of the static counter goes along.
unfoldable pub finish :
    (q : OnDemandManager)
    → List (OnDemandOutput q.State)
    → q.State
    → ModemTransmission
    → Option Text
    → Option (List (OnDemandOutput q.State))
finish q before s t none = none
finish q before s t (some bytes) =
    some
      (before ++ data_message t ∷ data_as_hex bytes ∷ map received (q.handle_modem_receive s t).1)

abbrev pub request_msg : ModemTransmission
request_msg = record unset { max_frame_bytes = some (pos 32); max_num_frames = some 1 }

unfoldable pub main : (q : OnDemandManager) → Option (List (OnDemandOutput q.State))
unfolding finish
main q =
    let s = q.add_queue (q.set_modem_id (pos 1) q.init) in
    let (s1, (i, t)) = q.handle_modem_data_request handle_encode_on_demand s 0 request_msg in
    finish q (contents s ∷ requesting request_msg ∷ []) s1 t (first_frame t.frame)
