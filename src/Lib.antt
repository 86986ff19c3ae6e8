-- ===== src/Lib.antt =====
-- goby3-examples: models of the example programs of the Goby3 middleware, and what they do right.
--
-- The repository is a set of small programs over Goby3: modem, queue and MAC examples under
-- src/components/acomms, I/O examples under src/components/middleware/io, publishers, drivers and
-- a state machine under src/interprocess, and vehicles that talk over an acoustic link under
-- src/intervehicle. They share no state but the messages that they exchange. Goby, Protobuf,
-- Boost, ncurses and MOOS are not part of the repository: what a program uses of them is a
-- parameter of its model, with what it relies on as a hypothesis, or a list of effects in the
-- order of the program's calls.
--
-- The files, and the code that they model:
--   Base            names of the standard library, lists and Booleans over the native numbers
--                   (Base/Lists, Base/Tests), integers (Base/Int), byte strings, std::to_string and
--                   std::stoi with its two exceptions (Base/Text)
--   Modem           the modem messages that the programs under src/components/acomms exchange
--   Multicast       src/components/acomms/modemdriver/pluggable_driver/udp_multicast_driver.cpp and
--                   .h: `startup`, `shutdown`, `handle_initiate_transmission`, `do_work`,
--                   `receive_message` and the other methods under their own names, on the class's
--                   fields. Multicast/Numbering is about frame numbers, Rates about frame sizes,
--                   Acks about acks, Link about listening, Exchange about one message
--                   between drivers. Multicast/Group is any number of drivers on one lossy group, as
--                   a step relation, with its invariant in Group/Sound and its theorems in
--                   Group/Delivery, Group/Answer and Group/Count; Group/Numbers is about frame numbers
--                   in a group, and Group/Attribution about which message an ack is about
--   Curses          src/components/acomms/chat/chat_curses.cpp and .h: the class's methods.
--                   Curses/Typing is about lines, Screen and Windows about what is shown, and Editor
--                   about a plain line editor
--   Chat            src/components/acomms/chat/chat.cpp: `main` as `read_arguments`, `mac_config`,
--                   `start`, `round` and `run`, and the slots that it connects; it uses Curses.
--                   Chat/Main puts `main` together, and Exits is about its exit codes.
--                   Chat/Arguments, Slots, Session and Delivery hold theorems on one end; Chat/Talk is
--                   both ends with the messages on their way, as a step relation, and Arrival is
--                   about a line on its way
--   Gps             src/interprocess/zeromq/gps_driver: gps_driver.cpp, gps_controller.cpp and
--                   moos_plugin.cpp. Gps/Conversion and Parsing are about NMEA, Control about
--                   commands. Gps/Threads is the driver's threads and the MOOS gateway with their
--                   subscriptions, and Pipeline is about what becomes of the lines
--   Trail           src/intervehicle/trail/trail.h, and the managers in Trail/AuvManager,
--                   UsvManager and TopsideManager. Trail/Link is nav.proto. Trail/Heading, Names,
--                   Links and Relay hold lemmas on one report. Trail/Contact is
--                   moos_plugin/trail_moos_plugin.cpp, and Trail/Helm what it tells an AUV's helm.
--                   Trail/Fleet is the managers together, as a step relation; Fleet/Sound is its
--                   invariant, Origin and Progress hold its theorems
--   StateMachine    src/interprocess/zeromq/state_machine: machine.h, subscriber.cpp, publisher.cpp
--   Amac            src/components/acomms/amac/amac_simple/amac_simple.cpp
--   DriverSimple    src/components/acomms/modemdriver/driver_simple/driver_simple.cpp
--   WhoiRanging     src/components/acomms/modemdriver/whoi_ranging/whoi_ranging.cpp
--   Flexostream     src/components/util/flexostream_simple/flexostream_simple.cpp
--   PubSub          publish and subscribe, as the programs use them: publications, subscriptions, and
--                   Goby's transporter as a record with laws. Gps, Subscribers, IoExamples, Mavlink
--                   and Hold give their constructors as subscriptions of it
--   IoExamples      src/components/middleware/io: tcp_example, udp_example, cobs_example,
--                   can_example, pty_example and serial_example. IoExamples/Defaults is about the
--                   configurators. IoExamples/Threads is what they rely on of Goby's I/O threads,
--                   Rounds and Responses follow a round of requests and answers, Exchange is about
--                   ports. Carrying is how the threads take up what is published; Logs, Connected and
--                   Answers are about what a call of `loop` logs
--   LogControl      src/interprocess/zeromq/log_control/publisher.cpp
--   Publishers      the programs that publish a random report in each round: the basic publishers
--                   under src/interprocess, src/interthread and src/intervehicle, broadcast,
--                   same_group and json. Publishers/Rounds is about what DCCL can encode
--   Subscribers     the programs that subscribe to those reports, each under the name of its
--                   publisher. Subscribers/Heard is about which of them hears what
--   Notices         what the programs under src/intervehicle print when Goby tells them that a report
--                   or a subscription is acknowledged or has expired; Notices/Lines is about its
--                   lines
--   Mavlink         src/interprocess/zeromq/mavlink/app.cpp; Mavlink/Received is about its log
--   Hold            src/interprocess/zeromq/hold; Hold/Once is about the initial state
--   Dccl            src/components/acomms/dccl, over Goby's codec as a record of operations and laws:
--                   Dccl/DcclSimple and TwoMessage are the programs, Decoded holds the theorems
--   Queue           src/components/acomms/queue, over Goby's queue manager as a record of operations
--                   and laws: Queue/QueueSimple, Multimessage and OnDemand are the programs,
--                   Loopback and Counting hold the theorems
--   Unsubscriber    src/intervehicle/unsubscriber/unsubscriber.cpp; Unsubscriber/Turns is about its
--                   calls, Heard about what it receives
--   Examples        each theorem at a concrete input
--
-- Bounds and fuel. A uint32 is a number with its wrap-around written out, and so is its reading as
-- an int. The loop over acknowledged frames has the number of its rounds as fuel, which is the
-- difference of its bounds. The two loops that bring a heading into range have the heading's size
-- as fuel, which suffices for every heading that a double holds exactly. Loops that run until the
-- program is killed take the number of rounds. A publication that sets off others takes their
-- longest chain as fuel: two for a line of the GPS, and four for a request and its answer, with any
-- more. In Multicast/Group, Trail/Fleet and Chat/Talk what was sent stays on the air, where it may
-- be taken any number of times, in any order, or never: the link loses, doubles and reorders.
-- Angles, times and lengths that the programs hold as doubles are integers in a fixed small unit:
-- the rounding of doubles is not modelled, and Trail's headings are those that a double holds
-- exactly. What goes to another vehicle or process is encoded by DCCL, which is given: Trail/Link,
-- Chat/Talk, Publishers/Rounds and Queue/OnDemand have the bounds of the .proto files, and
-- Trail/Link the rounding; the theorems on what arrives ask for messages within the bounds.
--
-- Not modelled: the wording of what is logged or printed, but for the notices of acknowledged or
-- expired reports and subscriptions; when Goby sets these off; the load functions of the two MOOS
-- plugins, generated Protobuf code, launch files and tests. A socket call that throws is left out of
-- Multicast, and so is the lifetime of the buffer that it sends from.
pub mod Base
pub mod Modem
pub mod PubSub
pub mod Multicast
pub mod Curses
pub mod Chat
pub mod Amac
pub mod DriverSimple
pub mod WhoiRanging
pub mod Flexostream
pub mod Gps
pub mod IoExamples
pub mod LogControl
pub mod Publishers
pub mod Subscribers
pub mod Dccl
pub mod Queue
pub mod Unsubscriber
pub mod Trail
pub mod StateMachine
pub mod Mavlink
pub mod Notices
pub mod Hold
mod Examples
