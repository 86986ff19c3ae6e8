-- ===== src/LogControl.antt =====
-- src/interprocess/zeromq/log_control/publisher.cpp: a publisher that also stops, starts and
-- rotates the log. Its navigation report is the one that the basic publishers send.
--
-- `std::rand` gives the numbers of a stream, one for each call. A coordinate, a `double` that the
-- program gives a whole number, is an integer.
pub mod Runs
use goby3_examples.Base.{
  ℕ, zero, suc, ◌+◌, ◌*◌, ◌%◌, Option, none, some, List, [], ◌∷◌, ◌==◌, if◌then◌else◌,
}
use goby3_examples.Base.Int.{ℤ, pos, ◌-ℤ◌}

pub record NavigationReport : Type 0 where
  pub x : ℤ
  pub y : ℤ
  pub z : ℤ

pub data LoggerRequest : Type 0 where
  stop_logging start_logging rotate_log : LoggerRequest

-- The three calls of `rand()` in the order of the statements, from the k-th of the stream on.
unfoldable pub random_nav : (ℕ → ℕ) → ℕ → NavigationReport
random_nav rand k = record {
  x = pos (95 + rand k % 20);
  y = pos (195 + rand (k + 1) % 20);
  z = pos (rand (k + 2) % 10) -ℤ pos 305;
}

-- The request of a round in which `++i` has given i.
unfoldable pub request_at : ℕ → Option LoggerRequest
request_at i =
    if i == 10
    then some stop_logging
    else if i == 20
    then some start_logging
    else if i == 30
    then some rotate_log
    else none

pub data Published : Type 0 where
  nav : NavigationReport → Published
  logger_request : LoggerRequest → Published

abbrev pub request_effect : Option LoggerRequest → List Published → List Published
request_effect none rest = rest
request_effect (some r) rest = logger_request r ∷ rest

-- The calls of `loop` from a value of the static `i`, for a number of rounds. A round calls
-- `rand` three times.
unfoldable pub loops : (ℕ → ℕ) → ℕ → ℕ → List Published
unfolding random_nav request_at
loops rand zero i = []
loops rand (suc rounds) i =
    nav (random_nav rand (3 * i)) ∷ request_effect (request_at (i + 1)) (loops rand rounds (i + 1))
