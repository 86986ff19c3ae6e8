-- ===== src/LogControl/Runs.antt =====
-- What the publisher sends over its rounds.
use goby3_examples.Base.{ℕ, zero, suc, ◌+◌, ◌≡◌, List, [], ◌∷◌, ◌++◌, ltb, arith, if◌then◌else◌}
use goby3_examples.Base.Int.{pos, negsuc, ◌-ℤ◌, ◌≤ℤ◌}
use goby3_examples.LogControl.{
  NavigationReport, LoggerRequest, stop_logging, start_logging, rotate_log, Published, nav,
  logger_request, random_nav, loops,
}

abbrev request_of : Published → List LoggerRequest → List LoggerRequest
request_of (nav n) rest = rest
request_of (logger_request r) rest = r ∷ rest

-- The requests among what is published, in order.
abbrev pub requests : List Published → List LoggerRequest
requests [] = []
requests (p ∷ ps) = request_of p (requests ps)

-- Of the three requests, those for rounds later than i and no later than the n-th after it.
abbrev due : ℕ → ℕ → List LoggerRequest
due n i =
    (if ltb i 10 then (if ltb (n + i) 10 then [] else stop_logging ∷ []) else [])
    ++ ((if ltb i 20 then (if ltb (n + i) 20 then [] else start_logging ∷ []) else [])
        ++ (if ltb i 30 then (if ltb (n + i) 30 then [] else rotate_log ∷ []) else []))

requests-due : (rand : ℕ → ℕ) (n i : ℕ) → requests (loops rand n i) ≡ due n i
unfolding loops
requests-due rand zero i = ground arith
requests-due rand (suc n) i = ground (arith, requests-due rand n (i + 1))

-- The three requests are made once each, in rounds 10, 20 and 30, and none before or after.
pub requests-loops :
    (rand : ℕ → ℕ) (n : ℕ)
    → requests (loops rand n 0) ≡ (
        if ltb n 10
        then []
        else if ltb n 20
        then stop_logging ∷ []
        else if ltb n 30
        then stop_logging ∷ start_logging ∷ []
        else stop_logging ∷ start_logging ∷ rotate_log ∷ [])
requests-loops rand n = ground (arith, requests-due rand n 0)

-- The bounds that nav_dccl.proto sets for the fields of its report of the same name.
abbrev pub IsEncodable : NavigationReport → Type 0
IsEncodable n =
    (negsuc 9999 ≤ℤ n.x)
    × (n.x ≤ℤ pos 10000)
    × (negsuc 9999 ≤ℤ n.y)
    × (n.y ≤ℤ pos 10000)
    × (negsuc 5999 ≤ℤ n.z)
    × (n.z ≤ℤ pos 0)

-- Whatever the random numbers are, a report lies in [95, 114] x [195, 214] x [-305, -296], which is
-- within the bounds that nav_dccl.proto sets.
pub random_nav-IsEncodable :
    (rand : ℕ → ℕ) (k : ℕ)
    → let n = random_nav rand k in
      (pos 95 ≤ℤ n.x)
      × (n.x ≤ℤ pos 114)
      × (pos 195 ≤ℤ n.y)
      × (n.y ≤ℤ pos 214)
      × (negsuc 304 ≤ℤ n.z)
      × (n.z ≤ℤ negsuc 295)
      × IsEncodable n
unfolding random_nav ◌-ℤ◌
random_nav-IsEncodable rand k = (
  ground arith,
  ground arith,
  ground arith,
  ground arith,
  ground arith,
  ground arith,
  (ground arith, ground arith, ground arith, ground arith, ground arith, ground arith),
)
