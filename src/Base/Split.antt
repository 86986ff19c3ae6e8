-- ===== src/Base/Split.antt =====
-- Texts taken apart at a code.
use goby3_examples.Base.{
  ℕ, ◌≡◌, refl, ◌∙◌, ap, Bool, true, false, List, [], ◌∷◌, ◌++◌, All, ◌==◌, ==_iff, if◌then◌else◌,
  arith,
}
use goby3_examples.Base.Text.{Text}

abbrev onto : ℕ → List Text → List Text
onto x [] = (x ∷ []) ∷ []
onto x (w ∷ ws) = (x ∷ w) ∷ ws

-- A text taken apart at each occurrence of a code.
abbrev pub split : ℕ → Text → List Text
split c [] = [] ∷ []
split c (x ∷ s) = let rest = split c s in if x == c then [] ∷ rest else onto x rest

abbrev pub Without : ℕ → Text → Type 0
Without c = All (λ x. (x == c) ≡ false)

-- The test that computes on a literal.
abbrev pub lacks : ℕ → Text → Bool
lacks c [] = true
lacks c (x ∷ w) = let rest = lacks c w in if x == c then false else rest

pub lacks-Without : (c : ℕ) (w : Text) → lacks c w ≡ true → Without c w
lacks-Without c [] h = tt
lacks-Without c (x ∷ w) h = (ground arith, lacks-Without c w (ground arith))

pub split-word : (c : ℕ) (w s : Text) → Without c w → split c (w ++ c ∷ s) ≡ w ∷ split c s
split-word c [] s h = ground (arith, ==_iff c c)
split-word c (x ∷ w) s h = rw (h.0, split-word c w s h.1)

pub split-last : (c : ℕ) (w : Text) → Without c w → split c w ≡ w ∷ []
split-last c [] h = refl
split-last c (x ∷ w) h = rw (h.0, split-last c w h.1)

-- Texts with a code between them.
abbrev pub joined : ℕ → Text → List Text → Text
joined c w [] = w
joined c w (v ∷ vs) = w ++ c ∷ joined c v vs

pub split-joined :
    (c : ℕ) (w : Text) (vs : List Text)
    → Without c w
    → All (Without c) vs
    → split c (joined c w vs) ≡ w ∷ vs
split-joined c w [] h hs = split-last c w h
split-joined c w (v ∷ vs) h hs =
    split-word c w (joined c v vs) h ∙ ap (λ r. w ∷ r) (split-joined c v vs hs.0 hs.1)
