-- ===== src/Trail/Heading.antt =====
-- The heading that `to_dccl` sends.
use goby3_examples.Base.{
  ℕ, zero, suc, ◌-◌, ◌%◌, ◌<◌, ◌≡◌, refl, sym, ◌∙◌, ap, arith, ltb, if◌then◌else◌,
}
use goby3_examples.Base.Int.{ℤ, pos, negsuc, ◌+ℤ◌, pos-sub}
use goby3_examples.Trail.{NodeStatus, World, revolution, reduce, raise, normalize, to_dccl, IsExact}

-- The least heading not below 0 that differs by whole revolutions.
abbrev pub remainder : ℤ → ℤ
remainder (pos n) = pos (n % revolution)
remainder (negsuc n) = pos (revolution - 1 - n % revolution)

reduce-pos : (fuel n : ℕ) → n < fuel → reduce fuel (pos n) ≡ pos (n % revolution)
unfolding reduce
reduce-pos zero n h = elim h [ ]
reduce-pos (suc fuel) n h = ground (arith, reduce-pos fuel (n - revolution), pos-sub n revolution)

reduce-negsuc : (fuel n : ℕ) → reduce (suc fuel) (negsuc n) ≡ negsuc n
unfolding reduce
reduce-negsuc fuel n = ground arith

raise-pos : (fuel k : ℕ) → raise fuel (pos k) ≡ pos k
unfolding raise
raise-pos zero k = refl
raise-pos (suc fuel) k = ground arith

negsuc-add :
    (n : ℕ)
    → negsuc n +ℤ pos revolution
      ≡ (if ltb n revolution then pos (revolution - 1 - n) else negsuc (n - revolution))
unfolding ◌+ℤ◌
negsuc-add n = ground arith

raise-negsuc :
    (fuel n : ℕ) → n < fuel → raise fuel (negsuc n) ≡ pos (revolution - 1 - n % revolution)
unfolding raise
raise-negsuc zero n h = elim h [ ]
raise-negsuc (suc fuel) n h =
    ground
      (arith, negsuc-add n, raise-pos fuel (revolution - 1 - n), raise-negsuc fuel (n - revolution))

normalize-remainder : (h : ℤ) → normalize h ≡ remainder h
unfolding normalize
normalize-remainder (pos n) = rw (reduce-pos (suc n) n (omega arith)) (raise-pos 1 (n % revolution))
normalize-remainder (negsuc n) = rw (reduce-negsuc 0 n) (raise-negsuc (suc (suc n)) n (omega arith))

-- For a heading that a double holds exactly (a multiple of 1 / 2 ^ 20 of a degree, less than 2 ^ 53
-- of them), the two loops end, and the heading that they leave is the remainder by a revolution: the
-- fuel suffices.
pub normalize-mod : (h : ℤ) → IsExact h → normalize h ≡ remainder h
normalize-mod h exact = normalize-remainder h

heading_of : ℤ → ℕ
heading_of (pos n) = n % revolution
heading_of (negsuc n) = revolution - 1 - n % revolution

heading_of-remainder :
    (h : ℤ)
    → (remainder h ≡ pos (heading_of h))
      × (heading_of h < revolution)
      × (remainder (remainder h) ≡ remainder h)
unfolding heading_of
heading_of-remainder (pos n) = (refl, omega arith, ap pos (omega arith))
heading_of-remainder (negsuc n) = (refl, omega arith, ap pos (omega arith))

-- For a vehicle's heading that a double holds exactly (a multiple of 1 / 2 ^ 20 of a degree, less
-- than 2 ^ 53 of them): a report's heading is at least 0 and less than 360 degrees, and differs from the vehicle's by
-- whole revolutions; sent on through another report it stays as it is.
pub to_dccl-heading :
    (world : World) (status : NodeStatus) (vehicle : ℤ)
    → IsExact status.heading
    → (n : ℕ) × ((to_dccl world status vehicle).heading ≡ pos n)
      × (n < revolution)
      × (remainder (pos n) ≡ remainder status.heading)
      × (normalize (pos n) ≡ pos n)
unfolding to_dccl
to_dccl-heading world status vehicle exact =
    let h = status.heading in
    let (is, small, again) = heading_of-remainder h in
    (
      heading_of h,
      normalize-remainder h ∙ is,
      small,
      (rw is at again) ∙ sym is,
      normalize-remainder (pos (heading_of h)) ∙ (rw is at again),
    )
