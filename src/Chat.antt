-- ===== src/Chat.antt =====
-- src/components/acomms/chat/chat.cpp: a chat between two modems.
--
-- `main` reads its arguments, configures Goby's queue manager, MAC and modem driver, and loops: a
-- key, a message for the queue if a line is complete, and the work of the three Goby objects, in
-- which they emit their signals. The globals that the loop changes are the record `Chat`; the
-- signals of one round, and whether a `runtime_error` ends it, are given. The build without
-- `USE_FLEXIBLE_DATA_PACKET` and `USE_TWO_WAY_PING` is modelled, the one that the file selects.
-- Opening the log file and Goby's startup are tests that are given.
pub mod Arguments
pub mod Slots
pub mod Session
pub mod Delivery
pub mod Talk
pub mod Arrival
pub mod Main
pub mod Exits
use goby3_examples.Base.{
  ℕ, ◌+◌, ◌-◌, ◌%◌, String, Bool, true, false, Option, none, some, List, [], ◌∷◌, ◌++◌, take,
  if◌then◌else◌,
}
use goby3_examples.Base.Int.{ℤ, pos, negsuc, ltb_ℤ, ◌==ℤ◌}
use goby3_examples.Base.Text.{Text, codes, Stoi, parsed, invalid_argument, out_of_range, stoi}
use goby3_examples.Modem.{ModemTransmission, data_type, unset, MacConfig, fixed_decentralized}
use goby3_examples.Curses.{
  ChatCurses, Key, run_input, post_message, post_line, set_modem_id, startup, is_empty,
}

-- `ChatMessage` of chat.proto.
pub record ChatMessage : Type 0 where
  pub destination : ℤ
  pub source : ℤ
  pub telegram : Text

-- An int where an unsigned is wanted.
unfoldable pub to_unsigned : ℤ → ℕ
to_unsigned (pos n) = n % 4294967296
to_unsigned (negsuc n) = 4294967296 - 1 - n % 4294967296

-- The values that `main` takes from its arguments.
pub record Settings : Type 0 where
  pub serial_port : Text
  pub my_id : ℤ
  pub buddy_id : ℤ
  pub log_file : Text

-- The `try` block around the two calls of `stoi`; either exception ends `main`.
pub read_ids : Stoi → Stoi → Option (ℤ × ℤ)
read_ids (parsed a) (parsed b) = some (a, b)
read_ids (parsed a) _ = none
read_ids _ _ = none

pub open_log : (Text → Bool) → Text → Text → Option (ℤ × ℤ) → Option Settings
open_log can_open port log none = none
open_log can_open port log (some (a, b)) =
    if can_open log
    then some (record { serial_port = port; my_id = a; buddy_id = b; log_file = log })
    else none

-- The arguments, the program's name among them; `none` is a call of `startup_failure`.
unfoldable pub read_arguments : (Text → Bool) → List Text → Option Settings
unfolding read_ids open_log
read_arguments can_open (name ∷ port ∷ mine ∷ buddy ∷ log ∷ []) =
    open_log can_open port log (read_ids (stoi mine) (stoi buddy))
read_arguments can_open _ = none

-- `my_slot` and `buddy_slot` are filled in alike.
unfoldable pub slot_of : ℤ → ℤ → ModemTransmission
slot_of from to = record unset {
  src = from;
  dest = to;
  type = data_type;
  rate = pos 0;
  slot_seconds = 12;
}

unfoldable pub mac_config : ℤ → ℤ → MacConfig
unfolding slot_of
mac_config my_id buddy_id =
    let my_slot = slot_of my_id buddy_id in
    let buddy_slot = slot_of buddy_id my_id in
    record {
      type = fixed_decentralized;
      modem_id = my_id;
      slot = if ltb_ℤ my_id buddy_id then my_slot ∷ buddy_slot ∷ [] else buddy_slot ∷ my_slot ∷ [];
    }

-- The queue's entry: the message's name, and the fields for the source and the destination.
pub record QueueConfig : Type 0 where
  pub modem_id : ℤ
  pub protobuf_name : Text
  pub source_field : Text
  pub destination_field : Text

unfoldable pub queue_config : ℤ → QueueConfig
queue_config my_id = record {
  modem_id = my_id;
  protobuf_name = codes "ChatMessage";
  source_field = codes "source";
  destination_field = codes "destination";
}

-- The driver's configuration, over a serial connection.
pub record DriverConfig : Type 0 where
  pub modem_id : ℤ
  pub serial_port : Text

unfoldable pub driver_config : Settings → DriverConfig
driver_config s = record { modem_id = s.my_id; serial_port = s.serial_port }

pub record Chat : Type 0 where
  pub my_id : ℤ
  pub buddy_id : ℤ
  pub curses : ChatCurses
  pub pushed : List ChatMessage
  pub exit_code : Option ℕ

-- The signals that the program is connected to.
pub data Signal : Type 0 where
  initiate_transmission : ModemTransmission → Signal
  data_received : ChatMessage → Signal
  ack_received : ModemTransmission → ChatMessage → Signal

unfoldable pub monitor_mac : ModemTransmission → Chat → Chat
monitor_mac m c =
    if m.src ==ℤ c.my_id
    then record c { curses = post_line (codes "{control} starting send to my buddy") c.curses }
    else if m.src ==ℤ c.buddy_id
    then record c {
      curses = post_line (codes "{control} my buddy might be sending to me now") c.curses;
    }
    else c

unfoldable pub received_data : ChatMessage → Chat → Chat
received_data m c = record c { curses = post_message (to_unsigned m.source) m.telegram c.curses }

unfoldable pub received_ack : ModemTransmission → ChatMessage → Chat → Chat
received_ack ack original c = record c {
  curses =
      post_message (to_unsigned ack.src)
        (codes "{ acknowledged receiving message starting with: "
          ++ (take 5 original.telegram ++ codes " }"))
        c.curses;
}

unfoldable pub handle : Signal → Chat → Chat
handle (initiate_transmission m) c = monitor_mac m c
handle (data_received m) c = received_data m c
handle (ack_received a m) c = received_ack a m c

unfoldable pub handle_all : List Signal → Chat → Chat
handle_all [] c = c
handle_all (s ∷ ss) c = handle_all ss (handle s c)

-- What one round meets: a key, the screen's size, the signals, and whether an exception ends it.
pub record Round : Type 0 where
  pub key : Key
  pub rows : ℕ
  pub columns : ℕ
  pub signals : List Signal
  pub throws : Bool

-- `main` up to the loop, once the arguments are read; `none` is the exception at startup.
unfoldable pub start : Bool → ℕ → ℕ → Settings → ChatCurses → Option Chat
start throws rows columns s c =
    if throws
    then none
    else some (record {
      my_id = s.my_id;
      buddy_id = s.buddy_id;
      curses = startup rows columns (set_modem_id (to_unsigned s.my_id) c);
      pushed = [];
      exit_code = none;
    })

-- `if (!line.empty()) … q_manager_.push_message(message_out)`.
unfoldable pub push_line : Text → Chat → Chat
push_line line c = if is_empty line then c else record c {
  pushed = c.pushed ++ record { destination = c.buddy_id; source = c.my_id; telegram = line } ∷ [];
}

unfoldable pub round : Round → Chat → Chat
unfolding push_line handle handle_all
round r c =
    let (curses', line) = run_input r.key r.rows r.columns c.curses in
    let worked = handle_all r.signals (push_line line (record c { curses = curses' })) in
    if r.throws then record worked { exit_code = some 1 } else worked

abbrev pub is_none : Option ℕ → Bool
is_none none = true
is_none (some n) = false

-- The loop: it goes on until a round has set the exit code.
unfoldable pub run : List Round → Chat → Chat
unfolding round
run [] c = c
run (r ∷ rs) c = elim (is_none c.exit_code) [ true ↦ run rs (round r c) | false ↦ c ]
