-- ===== src/Publishers/Rounds.antt =====
-- What DCCL can encode of the reports, by the bounds of nav_dccl.proto.
use goby3_examples.Base.{ℕ, zero, suc, ◌+◌, ◌↔◌, List, [], ◌∷◌, ◌++◌, All, All-append}
use goby3_examples.Base.Int.{ℤ, pos, ◌≤ℤ◌}
use goby3_examples.LogControl.{random_nav}
use goby3_examples.LogControl.Runs.{IsEncodable, random_nav-IsEncodable}
use goby3_examples.PubSub.{Layer, intervehicle, Publication}
use goby3_examples.Publishers.{
  Message, dccl_nav, dccl_nav_with_id, zeromq_loop, udpm_loop, zenoh_loop, interthread_loop,
  intervehicle_loop, broadcast_loop, same_group_loop, json_loop, Program, zeromq, udpm, zenoh,
  threads, acoustic, broadcast, json_publisher, same_group, loop_of, rounds,
}

abbrev pub IsId : ℤ → Type 0
IsId id = (pos 1 ≤ℤ id) × (id ≤ℤ pos 10)

abbrev Fits : Message → Type 0
Fits (dccl_nav n) = IsEncodable n
Fits (dccl_nav_with_id id n) = IsId id × IsEncodable n
Fits _ = Unit

-- What goes to another vehicle is encoded by DCCL, and fits into its message's bounds.
abbrev PassesOn : Layer → Message → Type 0
PassesOn intervehicle m = Fits m
PassesOn _ m = Unit

abbrev pub Passes : Publication Message → Type 0
Passes p = PassesOn p.layer p.message

abbrev pub HasId : Program → Type 0
HasId (same_group vehicle_id) = IsId vehicle_id
HasId _ = Unit

fits : (rand : ℕ → ℕ) (k : ℕ) → IsEncodable (random_nav rand k)
fits rand k = (random_nav-IsEncodable rand k).6

loop_of-Passes : (p : Program) (rand : ℕ → ℕ) (k : ℕ) → All Passes (loop_of p rand k) ↔ HasId p
unfolding loop_of zeromq_loop udpm_loop zenoh_loop interthread_loop intervehicle_loop broadcast_loop
    same_group_loop json_loop
loop_of-Passes zeromq rand k = (λ h. tt, λ h. (tt, tt))
loop_of-Passes udpm rand k = (λ h. tt, λ h. (tt, tt))
loop_of-Passes zenoh rand k = (λ h. tt, λ h. (tt, tt))
loop_of-Passes threads rand k = (λ h. tt, λ h. (tt, tt))
loop_of-Passes acoustic rand k = (λ h. tt, λ h. (fits rand k, tt))
loop_of-Passes broadcast rand k = (λ h. tt, λ h. (fits rand k, tt))
loop_of-Passes json_publisher rand k = (λ h. tt, λ h. (tt, (tt, tt)))
loop_of-Passes (same_group id) rand k = (λ h. h.0.0, λ h. ((h, fits rand k), tt))

pub all_pass : (p : Program) (rand : ℕ → ℕ) (n k : ℕ) → HasId p → All Passes (rounds p rand n k)
unfolding rounds
all_pass p rand zero k h = tt
all_pass p rand (suc n) k h =
    All-append Passes (loop_of p rand k) (rounds p rand n (k + 3)) ((loop_of-Passes p rand k).1 h)
      (all_pass p rand n (k + 3) h)

All-left : {A : Type 0} (P : A → Type 0) (xs ys : List A) → All P (xs ++ ys) → All P xs
All-left P [] ys h = tt
All-left P (x ∷ xs) ys h = (h.0, All-left P xs ys h.1)

-- All that a program publishes to other vehicles, in one or more rounds and whatever the random
-- numbers are, lies within the bounds by which DCCL encodes it, if and only if the program is not
-- same_group, or its configured id is one of 1 to 10.
pub rounds-Passes :
    (p : Program) (rand : ℕ → ℕ) (n k : ℕ) → All Passes (rounds p rand (suc n) k) ↔ HasId p
unfolding rounds
rounds-Passes p rand n k = (
  λ h. (loop_of-Passes p rand k).0 (All-left Passes (loop_of p rand k) (rounds p rand n (k + 3)) h),
  λ h. all_pass p rand (suc n) k h,
)
