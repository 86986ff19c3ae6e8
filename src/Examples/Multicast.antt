-- ===== src/Examples/Multicast.antt =====
-- Drivers with the modem ids 1, 2 and 3 on one multicast group.
use goby3_examples.Base.{
  ℕ, ◌≡◌, refl, true, false, Option, some, List, [], ◌∷◌, ◌++◌, length, arith, if◌then◌else◌,
}
use goby3_examples.Base.Int.{pos}
use goby3_examples.Base.Text.{Text, codes, text_eq}
use goby3_examples.Modem.{ModemTransmission, is_data, unset}
use goby3_examples.Multicast.{
  DriverConfig, Driver, Effect, Wire, assign, fill, Completion, sent, received, started, startup,
  socket_open, reuse_address, socket_bind, join_group, async_receive, endpoint, prepare, make_ack,
  do_work,
}
use goby3_examples.Multicast.Acks.{make_ack_overflow}
use goby3_examples.Multicast.Rates.{startup-prepare}
use goby3_examples.Multicast.Link.{armed, startup-do_work-armed}
use goby3_examples.Multicast.Exchange.{hear, exchange}

abbrev config : ℕ → DriverConfig
config id = record {
  modem_id = pos id;
  multicast_driver_cfg = record {
    listen_address = codes "0.0.0.0";
    multicast_address = codes "239.142.0.2";
    multicast_port = 50020;
    max_frame_size = pos 1400;
    rate_to_bytes = (pos 1, pos 200) ∷ (pos 2, pos 600) ∷ (pos 1, pos 400) ∷ [];
  };
}

abbrev idle : ℕ → Driver
idle id = record {
  driver_cfg = config id;
  rate_to_bytes = [];
  receiver = endpoint 0 0;
  next_frame = 0;
}

-- A request from modem 1 to modem 2, of two frames.
abbrev request : ModemTransmission
request = record unset {
  src = pos 1;
  dest = pos 2;
  ack_requested = true;
  frame_start = some 40;
  frame = codes "hello" ∷ codes "world" ∷ [];
}

-- A message whose last frame number is 2 ^ 31 - 1.
abbrev last_number : ModemTransmission
last_number = record request { frame_start = some 2147483646 }

make_ack_overflow_example : (make_ack (idle 2) last_number).acked_frame ≡ []
make_ack_overflow_example =
    make_ack_overflow (idle 2) last_number (omega arith) (omega arith) (omega arith)

-- The bytes of a message, of the two that are exchanged here.
abbrev letter : ModemTransmission → Text
letter m = if is_data m.type then codes "D" else codes "A"

abbrev wire : Wire
wire = record {
  serialize = letter;
  parse = λ bytes. if text_eq bytes (codes "D") then request else make_ack (idle 2) request;
}

abbrev make_address : Text → Option ℕ
make_address a = some (length a)

abbrev listening : Driver
listening = record (idle 1) {
  rate_to_bytes = (pos 1, pos 400) ∷ (pos 2, pos 600) ∷ [];
  receiver = endpoint 11 50020;
}

abbrev startup_effects : List Effect
startup_effects =
    socket_open (endpoint 7 50020)
    ∷ reuse_address (endpoint 7 50020)
    ∷ socket_bind (endpoint 7 50020)
    ∷ join_group 11
    ∷ async_receive
    ∷ []

starts : startup make_address (config 1) (idle 1) ≡ started listening startup_effects
unfolding startup fill assign
starts = refl

startup-prepare_example :
    (prepare listening (record unset { rate = pos 1 })).max_frame_bytes ≡ some (pos 400)
startup-prepare_example =
    startup-prepare make_address (config 1) (idle 1) listening startup_effects
      (record unset { rate = pos 1 }) starts refl

abbrev completions : List Completion
completions = received false (codes "D") ∷ sent false ∷ received true [] ∷ []

startup-do_work-armed_example : armed (startup_effects ++ do_work wire listening completions) ≡ 3
startup-do_work-armed_example =
    startup-do_work-armed make_address (config 1) (idle 1) listening startup_effects wire
      completions starts

reads_request : wire.parse (wire.serialize request) ≡ request
unfolding text_eq
reads_request = refl

reads_ack : wire.parse (wire.serialize (make_ack (idle 2) request)) ≡ make_ack (idle 2) request
unfolding text_eq make_ack
reads_ack = refl

exchange_example :
    (hear wire (idle 2) request ≡ (request ∷ [], wire.serialize (make_ack (idle 2) request) ∷ []))
    × (hear wire (idle 1) (make_ack (idle 2) request) ≡ (make_ack (idle 2) request ∷ [], []))
    × ((make_ack (idle 2) request).acked_frame ≡ pos 40 ∷ pos 41 ∷ [])
exchange_example =
    exchange wire (idle 1) (idle 2) request reads_request reads_ack (λ e. cc) refl refl (refl, refl)
      (omega arith)
