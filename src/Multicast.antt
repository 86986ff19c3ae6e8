-- ===== src/Multicast.antt =====
-- src/components/acomms/modemdriver/pluggable_driver/udp_multicast_driver.cpp and .h: a modem
-- driver that sends each message to a UDP multicast group.
--
-- The driver's fields are the record `Driver`. What a method does to the outside (the signals that
-- it emits, the socket calls that it makes, in the order of the code) is the list of effects that
-- it returns; log output is left out. Protobuf's `SerializeToString` and `ParseFromArray` are the
-- record `Wire`. The slots that an application connects to `signal_modify_transmission` and
-- `signal_data_request` change the message in place: they are functions given for each call.
-- A socket call that throws is left out; a bad address throws, as in `startup`.
pub mod Acks
pub mod Numbering
pub mod Rates
pub mod Link
pub mod Exchange
pub mod Group
use goby3_examples.Base.{
  ℕ, zero, suc, ◌+◌, ◌-◌, ◌%◌, Bool, true, false, ◌&&◌, Option, none, some, List, [], ◌∷◌, ◌++◌,
  length, ltb, if◌then◌else◌,
}
use goby3_examples.Base.Int.{ℤ, pos, negsuc, ◌+ℤ◌, ◌-ℤ◌, pos_part, ltb_ℤ, ◌==ℤ◌}
use goby3_examples.Base.Text.{Text}
use goby3_examples.Modem.{ModemTransmission, ack_type, is_data, unset}

-- `udp_multicast_plugin::protobuf::Config`. A pair is a rate and its number of bytes.
pub record Config : Type 0 where
  pub listen_address : Text
  pub multicast_address : Text
  pub multicast_port : ℕ
  pub max_frame_size : ℤ
  pub rate_to_bytes : List (ℤ × ℤ)

-- `DriverConfig`, with the extension that `multicast_driver_cfg` reads.
pub record DriverConfig : Type 0 where
  pub modem_id : ℤ
  pub multicast_driver_cfg : Config

-- An address is the number that it stands for, and a port is an `unsigned short`.
pub record Endpoint : Type 0 where
  pub address : ℕ
  pub port : ℕ

pub record Driver : Type 0 where
  pub driver_cfg : DriverConfig
  pub rate_to_bytes : List (ℤ × ℤ)
  pub receiver : Endpoint
  pub next_frame : ℕ  -- uint32

pub data Effect : Type 0 where
  socket_open reuse_address socket_bind : Endpoint → Effect
  join_group : ℕ → Effect
  io_stop socket_close async_receive : Effect
  raw_outgoing raw_incoming : Text → Effect
  async_send : Text → Endpoint → Effect
  transmit_result receive : ModemTransmission → Effect

pub record Wire : Type 0 where
  pub serialize : ModemTransmission → Text
  pub parse : Text → ModemTransmission

abbrev pub u32 : ℕ → ℕ
u32 n = n % 4294967296

-- A uint32 stored in an int.
abbrev pub to_int : ℕ → ℤ
to_int n = if ltb n 2147483648 then pos n else negsuc (4294967296 - n - 1)

-- `rate_to_bytes_[rate] = bytes`.
unfoldable pub assign : ℤ → ℤ → List (ℤ × ℤ) → List (ℤ × ℤ)
assign k v [] = (k, v) ∷ []
assign k v ((j, w) ∷ m) = if j ==ℤ k then (k, v) ∷ m else (j, w) ∷ assign k v m

-- `rate_to_bytes_.find(rate)`.
pub find : ℤ → List (ℤ × ℤ) → Option ℤ
find k [] = none
find k ((j, w) ∷ m) = if j ==ℤ k then some w else find k m

-- The loop of `startup` over the configured pairs.
unfoldable pub fill : List (ℤ × ℤ) → List (ℤ × ℤ) → List (ℤ × ℤ)
unfolding assign
fill [] m = m
fill ((k, v) ∷ pairs) m = fill pairs (assign k v m)

-- `startup` returns, or leaves by the exception of `make_address`.
pub data Started : Type 0 where
  started threw : Driver → List Effect → Started

abbrev pub endpoint : ℕ → ℕ → Endpoint
endpoint a p = record { address = a; port = p % 65536 }

-- The part of `startup` behind the first address.
pub join : Option ℕ → ℕ → Driver → List Effect → Started
join none port d es = threw d es
join (some a) port d es =
    started (record d { receiver = endpoint a port }) (es ++ join_group a ∷ async_receive ∷ [])

pub listen : Option ℕ → Option ℕ → ℕ → Driver → Started
listen none group port d = threw d []
listen (some a) group port d = join group port d (
    socket_open (endpoint a port)
    ∷ reuse_address (endpoint a port)
    ∷ socket_bind (endpoint a port)
    ∷ [])

unfoldable pub startup : (Text → Option ℕ) → DriverConfig → Driver → Started
unfolding listen join
startup make_address cfg d =
    let c = cfg.multicast_driver_cfg in
    listen (make_address c.listen_address) (make_address c.multicast_address) c.multicast_port
      (record d { driver_cfg = cfg; rate_to_bytes = fill c.rate_to_bytes [] })

unfoldable pub shutdown : List Effect
shutdown = io_stop ∷ socket_close ∷ []

unfoldable pub start_send : Wire → Driver → ModemTransmission → List Effect
start_send w d msg =
    raw_outgoing (w.serialize msg)
    ∷ async_send (w.serialize msg) d.receiver
    ∷ transmit_result msg
    ∷ []

-- `msg.set_frame_start(next_frame_)` under its guard.
pub number_frames : Driver → ModemTransmission → Option ℕ → ModemTransmission
number_frames d msg none = record msg { frame_start = some d.next_frame }
number_frames d msg (some n) = msg

abbrev pub bytes_for : Driver → Option ℤ → ℤ
bytes_for d none = d.driver_cfg.multicast_driver_cfg.max_frame_size
bytes_for d (some n) = n

-- `msg.set_max_frame_bytes` under its guard.
pub bound_frames : Driver → ModemTransmission → Option ℤ → ModemTransmission
bound_frames d msg none = record msg {
  max_frame_bytes = some (bytes_for d (find msg.rate d.rate_to_bytes));
}
bound_frames d msg (some n) = msg

-- `!(msg.frame_size() == 0 || msg.frame(0).empty())`.
abbrev pub has_data : List Text → Bool
has_data [] = false
has_data ([] ∷ fs) = false
has_data ((c ∷ f) ∷ fs) = true

-- The message as it goes to `signal_data_request`.
unfoldable pub prepare : Driver → ModemTransmission → ModemTransmission
unfolding number_frames bound_frames
prepare d msg =
    let numbered = number_frames d msg msg.frame_start in
    bound_frames d numbered numbered.max_frame_bytes

unfoldable pub handle_initiate_transmission :
    Wire
    → (ModemTransmission → ModemTransmission)
    → (ModemTransmission → ModemTransmission)
    → Driver
    → ModemTransmission
    → Driver × List Effect
handle_initiate_transmission w modify request d orig =
    let msg = request (prepare d (modify orig)) in
    (
      record d { next_frame = u32 (d.next_frame + length msg.frame) },
      if has_data msg.frame then start_send w d msg else [],
    )

-- `for (int i = …; i < n; ++i) ack.add_acked_frame(i)`. The test fails after n - i rounds.
pub acked_frames : ℕ → ℤ → ℤ → List ℤ
acked_frames zero i n = []
acked_frames (suc rounds) i n = elim (ltb_ℤ i n) [
  | true ↦ i ∷ acked_frames rounds (i +ℤ pos 1) n
  | false ↦ []
]

-- An unset `frame_start` reads as 0.
abbrev pub start_of : Option ℕ → ℕ
start_of none = 0
start_of (some n) = n

unfoldable pub make_ack : Driver → ModemTransmission → ModemTransmission
make_ack d msg =
    let start = start_of msg.frame_start in
    let i = to_int start in
    let n = to_int (u32 (length msg.frame + start)) in
    record unset {
      type = ack_type;
      src = d.driver_cfg.modem_id;
      dest = msg.src;
      acked_frame = acked_frames (pos_part (n -ℤ i)) i n;
    }

abbrev pub wants_ack : Driver → ModemTransmission → Bool
wants_ack d msg = is_data msg.type && msg.ack_requested && (msg.dest ==ℤ d.driver_cfg.modem_id)

unfoldable pub receive_message : Wire → Driver → ModemTransmission → List Effect
receive_message w d msg =
    (if wants_ack d msg then start_send w d (make_ack d msg) else []) ++ receive msg ∷ []

unfoldable pub start_receive : List Effect
start_receive = async_receive ∷ []

-- `send_complete` logs and returns, with an error or without.
unfoldable pub send_complete : Bool → List Effect
send_complete error = []

-- The buffer's first `bytes_transferred` bytes are given as a text.
unfoldable pub receive_complete : Wire → Driver → Bool → Text → List Effect
receive_complete w d true bytes = start_receive
receive_complete w d false bytes =
    let msg = w.parse bytes in
    raw_incoming bytes
    ∷ ((if msg.src ==ℤ d.driver_cfg.modem_id then [] else receive_message w d msg) ++ start_receive)

-- The operations that end while `io_context_.poll()` runs.
pub data Completion : Type 0 where
  sent : Bool → Completion
  received : Bool → Text → Completion

unfoldable pub complete : Wire → Driver → Completion → List Effect
complete w d (sent error) = send_complete error
complete w d (received error bytes) = receive_complete w d error bytes

unfoldable pub do_work : Wire → Driver → List Completion → List Effect
unfolding complete
do_work w d [] = []
do_work w d (c ∷ cs) = complete w d c ++ do_work w d cs
