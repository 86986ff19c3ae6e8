-- ===== src/IoExamples.antt =====
-- src/components/middleware/io: applications that talk to themselves over Goby's I/O threads.
--
-- Protobuf's optional fields are `Option`s, and a `has_` test is a match. The children are the
-- applications; what they have in common is here. `IOData` carries its bytes and the endpoints
-- that Goby's threads fill in or read. An application's constructor is its subscriptions and the
-- I/O threads that it launches.
pub mod Tcp
pub mod Udp
pub mod Cobs
pub mod Can
pub mod Pty
pub mod Defaults
pub mod Threads
pub mod Rounds
pub mod Responses
pub mod Exchange
pub mod Serial
pub mod Carrying
pub mod Logs
pub mod Connected
pub mod Answers
use goby3_examples.Base.{ℕ, Option, none, some, List, [], ◌∷◌}
use goby3_examples.Base.Text.{Text, codes}
use goby3_examples.PubSub.{interthread, Publication, Subscription}

pub record Endpoint : Type 0 where
  pub addr : Text
  pub port : ℕ

pub record IoData : Type 0 where
  pub bytes : Text
  pub src : Option Endpoint
  pub dest : Option Endpoint

pub record Server : Type 0 where
  pub bind_port : Option ℕ

-- The client of a TCP or UDP server. A TCP client has no port to bind.
pub record Client : Type 0 where
  pub bind_port : Option ℕ
  pub remote_address : Option Text
  pub remote_port : Option ℕ

abbrev pub server_port : ℕ
server_port = 53221

abbrev pub server_addr : Text
server_addr = codes "127.0.0.1"

abbrev pub or_default {ℓ} : {A : Type ℓ} → A → Option A → A
or_default d none = d
or_default d (some a) = a

-- A message with no endpoints, to be sent.
abbrev pub message : Text → IoData
message bytes = record { bytes = bytes; src = none; dest = none }

pub record Line : Type 0 where
  pub port : Option Text
  pub baud : Option ℕ

-- What the threads hand in: data, an event of a TCP server, or a frame of a CAN bus.
pub record CanFrame : Type 0 where
  pub can_id : ℕ
  pub bytes : List ℕ

pub data Mail : Type 0 where
  io_data : IoData → Mail
  server_event : Text → Mail
  can_frame : CanFrame → Mail

abbrev pub publish : Text → IoData → Publication Mail
publish group d = record { layer = interthread; group = group; message = io_data d }

-- What a callback does: it writes to a group of the log, or publishes.
pub data Effect : Type 0 where
  log : Text → Mail → Effect
  send : Publication Mail → Effect

abbrev pub sent : List Effect → List (Publication Mail)
sent [] = []
sent (send p ∷ es) = p ∷ sent es
sent (log g m ∷ es) = sent es

-- A callback for `IOData` that logs it to a group, and one that also does what is given.
abbrev pub logs_data : Text → Mail → Option (List Effect)
logs_data group (io_data d) = some (log group (io_data d) ∷ [])
logs_data group _ = none

abbrev pub logs_and : Text → (IoData → List Effect) → Mail → Option (List Effect)
logs_and group f (io_data d) = some (log group (io_data d) ∷ f d)
logs_and group f _ = none

abbrev pub logs_event : Text → Mail → Option (List Effect)
logs_event group (server_event e) = some (log group (server_event e) ∷ [])
logs_event group _ = none

abbrev pub on : Text → (Mail → Option (List Effect)) → Subscription Mail Effect
on group callback = record { layer = interthread; group = group; callback = callback }

-- An I/O thread that is launched: its configuration, the group that it hands data in on, and the
-- group whose data it sends.
pub data Launch : Type 0 where
  server_thread : Server → Text → Text → Launch
  client_thread : Client → Text → Text → Launch
  pty_thread serial_thread : Line → Text → Text → Launch
  can_thread : Option Text → Text → Text → Launch

-- A message that is not set reads as one with no field set.
abbrev pub unset_server : Server
unset_server = record { bind_port = none }

abbrev pub unset_client : Client
unset_client = record { bind_port = none; remote_address = none; remote_port = none }

abbrev pub unset_line : Line
unset_line = record { port = none; baud = none }
