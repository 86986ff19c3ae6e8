-- ===== src/Base/Lists.antt =====
-- Lists measured by native numbers, under the library's names, and a list that loses its end.
use Prim.Native.Nat.{ℕ, zero, suc, ◌+◌, ◌-◌, min}
use mathlib.Core.Path.{◌≡◌, refl, sym, subst}
use mathlib.Core.Logic.{◌⊎◌, inl, inr}
use mathlib.Core.List.{List, [], ◌∷◌, ◌++◌, append_assoc}
use native.Mathlib.Omega.{arith}

module _ {ℓ} {A : Type ℓ} where
  abbrev pub length : List A → ℕ
  length [] = 0
  length (x ∷ xs) = suc (length xs)

  abbrev pub take : ℕ → List A → List A
  take zero xs = []
  take (suc n) [] = []
  take (suc n) (x ∷ xs) = x ∷ take n xs

  abbrev pub drop : ℕ → List A → List A
  drop zero xs = xs
  drop (suc n) [] = []
  drop (suc n) (x ∷ xs) = drop n xs

  abbrev pub replicate : ℕ → A → List A
  replicate zero a = []
  replicate (suc n) a = a ∷ replicate n a

  -- `resize(size() - 1)` on a text that is not empty.
  abbrev pub init : List A → List A
  init [] = []
  init (x ∷ []) = []
  init (x ∷ y ∷ xs) = x ∷ init (y ∷ xs)

  pub length-append : (xs ys : List A) → length (xs ++ ys) ≡ length xs + length ys
  length-append [] ys = omega arith
  length-append (x ∷ xs) ys = omega (arith, length-append xs ys)

  pub length-take : (n : ℕ) (xs : List A) → length (take n xs) ≡ min n (length xs)
  length-take zero xs = omega arith
  length-take (suc n) [] = omega arith
  length-take (suc n) (x ∷ xs) = omega (arith, length-take n xs)

module _ {ℓ} {A : Type ℓ} where
  pub length-init : (xs : List A) → length (init xs) ≡ length xs - 1
  length-init [] = omega arith
  length-init (x ∷ []) = omega arith
  length-init (x ∷ y ∷ xs) = omega (arith, length-init (y ∷ xs))

  abbrev pub All {κ} : (A → Type κ) → List A → Type κ
  All P [] = Unit
  All P (x ∷ xs) = P x × All P xs

  pub All-append {κ} : (P : A → Type κ) (xs ys : List A) → All P xs → All P ys → All P (xs ++ ys)
  All-append P [] ys hx hy = hy
  All-append P (x ∷ xs) ys hx hy = (hx.0, All-append P xs ys hx.1 hy)

-- What each item gives, one after the other.
abbrev pub each : {A B : Type 0} → (A → List B) → List A → List B
each f [] = []
each f (x ∷ xs) = f x ++ each f xs

pub each-append :
    {A B : Type 0} (f : A → List B) (xs ys : List A) → each f (xs ++ ys) ≡ each f xs ++ each f ys
each-append f [] ys = refl
each-append f (x ∷ xs) ys =
    rw (each-append f xs ys) (sym (append_assoc (f x) (each f xs) (each f ys)))

-- The list has the item at some place.
abbrev pub Among : {A : Type 0} → A → List A → Type 0
Among x [] = ⊥
Among x (y ∷ ys) = (y ≡ x) ⊎ Among x ys

module _ {A : Type 0} where
  pub Among-left : (x : A) (xs ys : List A) → Among x xs → Among x (xs ++ ys)
  Among-left x [] ys h = absurd h
  Among-left x (z ∷ xs) ys (inl e) = inl e
  Among-left x (z ∷ xs) ys (inr h) = inr (Among-left x xs ys h)

  pub Among-right : (x : A) (xs ys : List A) → Among x ys → Among x (xs ++ ys)
  Among-right x [] ys h = h
  Among-right x (z ∷ xs) ys h = inr (Among-right x xs ys h)

  pub Among-append : (x : A) (xs ys : List A) → Among x (xs ++ ys) → Among x xs ⊎ Among x ys
  Among-append x [] ys h = inr h
  Among-append x (z ∷ xs) ys (inl e) = inl (inl e)
  Among-append x (z ∷ xs) ys (inr h) = elim (Among-append x xs ys h) [
    | inl l ↦ inl (inr l)
    | inr r ↦ inr r
  ]

  pub Among-snoc : (x y : A) (xs : List A) → Among x (xs ++ y ∷ []) → Among x xs ⊎ (y ≡ x)
  Among-snoc x y xs h = elim (Among-append x xs (y ∷ []) h) [
    | inl l ↦ inl l
    | inr (inl e) ↦ inr e
    | inr (inr r) ↦ absurd r
  ]

  pub Among-last : (y : A) (xs : List A) → Among y (xs ++ y ∷ [])
  Among-last y xs = Among-right y xs (y ∷ []) (inl refl)

  pub Among-All : (P : A → Type 0) (xs : List A) → ((x : A) → Among x xs → P x) → All P xs
  Among-All P [] h = tt
  Among-All P (x ∷ xs) h = (h x (inl refl), Among-All P xs (λ y k. h y (inr k)))

  pub All-Among : (P : A → Type 0) (xs : List A) (x : A) → All P xs → Among x xs → P x
  All-Among P [] x h l = absurd l
  All-Among P (y ∷ xs) x h (inl e) = subst P e h.0
  All-Among P (y ∷ xs) x h (inr l) = All-Among P xs x h.1 l
