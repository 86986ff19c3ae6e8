-- ===== src/Queue/Counting.antt =====
-- The messages that encode_on_demand makes and gets back.
use goby3_examples.Base.{
  ℕ, zero, suc, ◌+◌, ◌*◌, ◌≤◌, ◌≡◌, refl, ap, List, [], ◌∷◌, All, ◌↔◌, ◌⊎◌, inl, inr, arith,
}
use goby3_examples.Modem.{ModemTransmission}
use goby3_examples.Queue.OnDemand.{
  GobyMessage, IsEncodable, handle_encode_on_demand, calls, OnDemandOutput, received,
}

-- The n messages that count on from i.
abbrev pub counted : ℕ → ℕ → List GobyMessage
counted zero i = []
counted (suc n) i = record { a = i; b = i + 1 } ∷ counted n (i + 2)

calls-counted :
    (t : ModemTransmission) (n i : ℕ)
    → calls handle_encode_on_demand t n i ≡ (counted n i, i + 2 * n)
unfolding calls handle_encode_on_demand
calls-counted t zero i = ap (λ k. ([], k)) (omega arith)
calls-counted t (suc n) i =
    let next : i + 2 + 2 * n ≡ i + 2 * suc n = omega arith in
    rw (calls-counted t n (i + 2), next) refl

later-fits : (n i : ℕ) → i + 2 * suc n ≤ 256 → (n ≡ 0) ⊎ (i + 2 + 2 * n ≤ 256)
later-fits n i h = inr (omega arith)

counted-IsEncodable : (n i : ℕ) → All IsEncodable (counted n i) ↔ ((n ≡ 0) ⊎ (i + 2 * n ≤ 256))
counted-IsEncodable zero i = (λ h. inl refl, λ h. tt)
counted-IsEncodable (suc n) i =
    let (there, back) = counted-IsEncodable n (i + 2) in
    (
      λ h. elim (there h.1) [ inl e ↦ inr (omega (arith, h.0.0)) | inr e ↦ inr (omega arith) ],
      λ h. elim h [ inl e ↦ cc | inr e ↦ ((omega arith, omega arith), back (later-fits n i e)) ],
    )

abbrev pub receptions : {State : Type 0} → List (OnDemandOutput State) → List GobyMessage
receptions [] = []
receptions (received m ∷ os) = m ∷ receptions os
receptions (_ ∷ os) = receptions os

-- The first n calls of the slot give messages that DCCL takes, within the bounds of on_demand.proto,
-- if and only if there are at most 128 of them.
pub calls-IsEncodable :
    (t : ModemTransmission) (n : ℕ)
    → All IsEncodable (calls handle_encode_on_demand t n 0).0 ↔ (n ≤ 128)
calls-IsEncodable t n = rw (calls-counted t n 0) (
    let (there, back) = counted-IsEncodable n 0 in
    (
      λ h. elim (there h) [ inl e ↦ omega arith | inr e ↦ omega arith ],
      λ h. back (inr (omega arith)),
    ))
