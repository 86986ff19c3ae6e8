-- ===== src/Publishers.antt =====
-- The programs that publish one random report in each round:
-- src/interprocess/zeromq/basic_publisher, src/interprocess/udpm/basic_publisher,
-- src/interprocess/zenoh/basic_publisher, src/interthread/basic_publisher_subscriber,
-- src/intervehicle/basic_publisher, src/intervehicle/broadcast, src/intervehicle/same_group and
-- src/interprocess/zeromq/json.
--
-- The three calls of `std::rand` take the numbers of a stream, as in `LogControl`. What the
-- callbacks that they hand over with a report print is in Notices, and what `loop` prints is left
-- out.
pub mod Rounds
use goby3_examples.Base.{ℕ, zero, suc, ◌+◌, ◌%◌, List, [], ◌∷◌, ◌++◌}
use goby3_examples.Base.Int.{ℤ, pos, ◌-ℤ◌}
use goby3_examples.Base.Text.{Text, codes}
use goby3_examples.PubSub.{Layer, interthread, interprocess, intervehicle, Publication}
use goby3_examples.LogControl.{NavigationReport, random_nav}

-- A message with its type: the reports of nav.proto, of nav_dccl.proto and of nav.h, and a JSON
-- object, which is its keys and values.
pub data Message : Type 0 where
  protobuf_nav dccl_nav json_nav : NavigationReport → Message
  dccl_nav_with_id : ℤ → NavigationReport → Message
  json : List (Text × ℤ) → Message

abbrev pub Published : Type 0
Published = List (Publication Message)

-- All of them publish on `groups::nav`.
abbrev pub publish : Layer → Message → Publication Message
publish layer m = record { layer = layer; group = codes "nav"; message = m }

-- The `loop` of each program, from the k-th number of the stream on.
unfoldable pub zeromq_loop : (ℕ → ℕ) → ℕ → Published
zeromq_loop rand k = publish interprocess (protobuf_nav (random_nav rand k)) ∷ []

unfoldable pub udpm_loop : (ℕ → ℕ) → ℕ → Published
udpm_loop rand k = publish interprocess (protobuf_nav (random_nav rand k)) ∷ []

unfoldable pub zenoh_loop : (ℕ → ℕ) → ℕ → Published
zenoh_loop rand k = publish interprocess (protobuf_nav (random_nav rand k)) ∷ []

unfoldable pub interthread_loop : (ℕ → ℕ) → ℕ → Published
interthread_loop rand k = publish interthread (protobuf_nav (random_nav rand k)) ∷ []

unfoldable pub intervehicle_loop : (ℕ → ℕ) → ℕ → Published
intervehicle_loop rand k = publish intervehicle (dccl_nav (random_nav rand k)) ∷ []

unfoldable pub broadcast_loop : (ℕ → ℕ) → ℕ → Published
broadcast_loop rand k = publish intervehicle (dccl_nav (random_nav rand k)) ∷ []

-- The configuration gives the vehicle's id, of any size.
unfoldable pub same_group_loop : ℤ → (ℕ → ℕ) → ℕ → Published
same_group_loop vehicle_id rand k =
    publish intervehicle (dccl_nav_with_id vehicle_id (random_nav rand k)) ∷ []

-- The struct of nav.h, and an object that the program makes by hand. The struct's fields are given
-- in their order, so the three calls are too.
unfoldable pub json_loop : (ℕ → ℕ) → ℕ → Published
json_loop rand k =
    publish interprocess (json_nav (random_nav rand k))
    ∷ publish interprocess
        (json ((codes "x2", pos 10) ∷ (codes "y2", pos 20) ∷ (codes "z2", pos 30) ∷ []))
    ∷ []

pub data Program : Type 0 where
  zeromq udpm zenoh threads acoustic broadcast json_publisher : Program
  same_group : ℤ → Program

unfoldable pub loop_of : Program → (ℕ → ℕ) → ℕ → Published
loop_of zeromq = zeromq_loop
loop_of udpm = udpm_loop
loop_of zenoh = zenoh_loop
loop_of threads = interthread_loop
loop_of acoustic = intervehicle_loop
loop_of broadcast = broadcast_loop
loop_of json_publisher = json_loop
loop_of (same_group vehicle_id) = same_group_loop vehicle_id

-- What a program publishes in so many rounds.
unfoldable pub rounds : Program → (ℕ → ℕ) → ℕ → ℕ → Published
unfolding loop_of
rounds p rand zero k = []
rounds p rand (suc n) k = loop_of p rand k ++ rounds p rand n (k + 3)
