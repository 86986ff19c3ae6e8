-- ===== src/Chat/Main.antt =====
-- chat.cpp's `main` as a whole: its arguments, what it sets up, its loop and its exit codes.
--
-- Which of the four calls in the `try` block throws, if one does, is given. The range reply of the
-- build with USE_TWO_WAY_PING has its own slot, `monitor_modem_receive`, which the build that the
-- file selects does not connect.
use goby3_examples.Base.{
  ℕ, Bool, true, false, Option, none, some, List, [], ◌∷◌, ◌++◌, if◌then◌else◌,
}
use goby3_examples.Base.Text.{Text}
use goby3_examples.Modem.{MacConfig}
use goby3_examples.Curses.{ChatCurses, post_line}
use goby3_examples.Chat.{
  Settings, QueueConfig, DriverConfig, Chat, Round, read_arguments, mac_config, queue_config,
  driver_config, start, run,
}

-- What `main` does to Goby before its loop, in its order.
pub data Setup : Type 0 where
  bind_signals validate_message connect_receive connect_ack connect_initiate set_dccl : Setup
  set_queue : QueueConfig → Setup
  start_mac : MacConfig → Setup
  start_driver : DriverConfig → Setup

unfoldable pub connections : List Setup
connections =
    bind_signals ∷ validate_message ∷ connect_receive ∷ connect_ack ∷ connect_initiate ∷ []

-- The calls of the `try` block.
pub data Step : Type 0 where
  at_dccl at_queue at_mac at_driver : Step

unfoldable pub startups : Settings → Option Step → List Setup
startups s throws =
    let queue = set_queue (queue_config s.my_id) in
    let mac = start_mac (mac_config s.my_id s.buddy_id) in
    elim throws [
      | some at_dccl ↦ set_dccl ∷ []
      | some at_queue ↦ set_dccl ∷ queue ∷ []
      | some at_mac ↦ set_dccl ∷ queue ∷ mac ∷ []
      | _ ↦ set_dccl ∷ queue ∷ mac ∷ start_driver (driver_config s) ∷ []
    ]

abbrev pub throws_there : Option Step → Bool
throws_there none = false
throws_there (some at) = true

-- `startup_failure` prints the usage; its code is the one that `main` returns.
unfoldable pub startup_failure : ℕ
startup_failure = 1

pub record Finish : Type 0 where
  pub setup : List Setup
  pub chat : Option Chat
  -- none as long as the loop runs
  pub exit_code : Option ℕ

unfoldable pub finish : List Round → List Setup → Option Chat → Finish
finish rs setup none = record { setup = setup; chat = none; exit_code = some startup_failure }
finish rs setup (some c) =
    let last = run rs c in record { setup = setup; chat = some last; exit_code = last.exit_code }

unfoldable pub with_settings :
    Option Step → ℕ → ℕ → ChatCurses → List Round → Option Settings → Finish
with_settings throws rows columns window rs none = record {
  setup = [];
  chat = none;
  exit_code = some startup_failure;
}
with_settings throws rows columns window rs (some s) =
    finish rs (connections ++ startups s throws) (start (throws_there throws) rows columns s window)

unfoldable pub main :
    (Text → Bool) → List Text → Option Step → ℕ → ℕ → ChatCurses → List Round → Finish
main can_open args throws rows columns window rs =
    with_settings throws rows columns window rs (read_arguments can_open args)

-- A two-way ping's reply, with its travel times and the text that it prints as.
pub record RangingReply : Type 0 where
  pub one_way_travel_time : List ℕ
  pub debug_string : Text

pub record Received : Type 0 where
  pub is_two_way_ping : Bool
  pub ranging_reply : Option RangingReply

pub post_reply : Option RangingReply → Chat → Chat
post_reply none c = c
post_reply (some r) c = elim r.one_way_travel_time [
  | [] ↦ c
  | _ ↦ record c { curses = post_line r.debug_string c.curses }
]

unfoldable pub monitor_modem_receive : Received → Chat → Chat
unfolding post_reply
monitor_modem_receive m c = if m.is_two_way_ping then post_reply m.ranging_reply c else c
