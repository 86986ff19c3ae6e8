-- ===== src/Unsubscriber/Turns.antt =====
-- The calls over many rounds.
use goby3_examples.Base.{
  ℕ, zero, suc, ◌%◌, ◌≡◌, refl, Bool, true, false, List, [], ◌∷◌, ◌++◌, ◌==◌, not, length,
  if◌then◌else◌, arith,
}
use goby3_examples.Unsubscriber.{Call, subscribe_nav, unsubscribe_nav, loop}

pub loops : ℕ → Bool → Bool × List Call
loops zero s = (s, [])
loops (suc n) s = let (t, cs) = loop s in let (u, rest) = loops n t in (u, cs ++ rest)

-- A subscription is made only when there is none, and taken back only when there is one; the last
-- argument says whether there is one at the end.
pub data Balanced : Bool → List Call → Bool → Type 0 where
  done : {s : Bool} → Balanced s [] s
  subscribes :
      {cs : List Call} {t : Bool} → Balanced true cs t → Balanced false (subscribe_nav ∷ cs) t
  unsubscribes :
      {cs : List Call} {t : Bool} → Balanced false cs t → Balanced true (unsubscribe_nav ∷ cs) t

loops-Balanced : (n : ℕ) (s : Bool) → Balanced s (loops n s).1 (loops n s).0
unfolding loops loop
loops-Balanced zero s = done
loops-Balanced (suc n) false = subscribes (loops-Balanced n true)
loops-Balanced (suc n) true = unsubscribes (loops-Balanced n false)

loops-parity : (n : ℕ) (s : Bool) → (loops n s).0 ≡ (if n % 2 == 0 then s else not s)
unfolding loops loop
loops-parity zero s = refl
loops-parity (suc n) false = ground (arith, loops-parity n true)
loops-parity (suc n) true = ground (arith, loops-parity n false)

length-loops : (n : ℕ) (s : Bool) → length (loops n s).1 ≡ n
unfolding loops loop
length-loops zero s = refl
length-loops (suc n) false = omega (arith, length-loops n true)
length-loops (suc n) true = omega (arith, length-loops n false)

-- From the start, n rounds make n calls, which subscribe and unsubscribe in turn; the field
-- `subscribed_` says whether there is a subscription, which is so after an odd number of rounds.
pub loops-turns :
    (n : ℕ)
    → Balanced false (loops n false).1 (loops n false).0
      × (length (loops n false).1 ≡ n)
      × ((loops n false).0 ≡ (n % 2 == 1))
loops-turns n = (loops-Balanced n false, length-loops n false, ground (arith, loops-parity n false))
