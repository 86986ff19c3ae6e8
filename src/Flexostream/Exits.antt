-- ===== src/Flexostream/Exits.antt =====
-- How the program ends, and what it has done by then.
use goby3_examples.Base.{
  ℕ, ◌+◌, ◌≡◌, refl, ◌≢◌, ◌↔◌, Bool, true, false, Option, none, some, List, [], ◌∷◌, ◌++◌, ◌⊎◌, inl,
  inr, Bool-cases, arith,
}
use goby3_examples.Base.Text.{Text, codes, text_eq, text_eq→eq}
use goby3_examples.Flexostream.{Level, Effect, output, close_file, mode_of, show, finish, main}

abbrev printing : Effect → ℕ
printing output = 1
printing _ = 0

-- How often `output` is called.
abbrev pub outputs : List Effect → ℕ
outputs [] = 0
outputs (e ∷ es) = printing e + outputs es

-- The verbosities that the usage message names.
pub data IsVerbosity : Text → Type 0 where
  is_quiet : {v : Text} → v ≡ codes "quiet" → IsVerbosity v
  is_warn : {v : Text} → v ≡ codes "warn" → IsVerbosity v
  is_verbose : {v : Text} → v ≡ codes "verbose" → IsVerbosity v
  is_debug : {v : Text} → v ≡ codes "debug" → IsVerbosity v
  is_gui : {v : Text} → v ≡ codes "gui" → IsVerbosity v

mode_of-IsVerbosity : (v : Text) → mode_of v ≢ none → IsVerbosity v
unfolding mode_of
mode_of-IsVerbosity v h = grind (arith, text_eq→eq, is_quiet, is_warn, is_verbose, is_debug, is_gui)

mode_of-some : (v : Text) → IsVerbosity v → mode_of v ≢ none
unfolding mode_of text_eq
mode_of-some v (is_quiet h) = rw h (λ e. cc)
mode_of-some v (is_warn h) = rw h (λ e. cc)
mode_of-some v (is_verbose h) = rw h (λ e. cc)
mode_of-some v (is_debug h) = rw h (λ e. cc)
mode_of-some v (is_gui h) = rw h (λ e. cc)

-- Exit code 0 after one call of `output`, or 1 after none.
abbrev pub IsExit : ℕ × List Effect → Type 0
IsExit (code, es) = ((code ≡ 0) × (outputs es ≡ 1)) ⊎ ((code ≡ 1) × (outputs es ≡ 0))

outputs-append : (xs ys : List Effect) → outputs (xs ++ ys) ≡ outputs xs + outputs ys
outputs-append [] ys = omega arith
outputs-append (x ∷ xs) ys = omega (arith, outputs-append xs ys)

finish-IsExit :
    (opened closed : List Effect) (m : Option (Level × Bool))
    → outputs opened ≡ 0
    → outputs closed ≡ 0
    → IsExit (finish opened closed m)
unfolding finish show
finish-IsExit opened closed none ho hc = inr (refl, ho)
finish-IsExit opened closed (some (level, true)) ho hc =
    inl (refl, omega (arith, outputs-append opened (show level true ++ closed), hc))
finish-IsExit opened closed (some (level, false)) ho hc =
    inl (refl, omega (arith, outputs-append opened (show level false ++ closed), hc))

-- Whatever the arguments are, the program exits with 0 after one call of `output`, or with 1 after
-- none.
pub main-IsExit : (can_open : Text → Bool) (args : List Text) → IsExit (main can_open args)
unfolding main
main-IsExit can_open [] = inr (refl, refl)
main-IsExit can_open (name ∷ []) = inr (refl, refl)
main-IsExit can_open (name ∷ verbosity ∷ []) = finish-IsExit [] [] (mode_of verbosity) refl refl
main-IsExit can_open (name ∷ verbosity ∷ file ∷ []) = elim (Bool-cases (can_open file)) [
  | inl e ↦ rw e (finish-IsExit _ (close_file ∷ []) (mode_of verbosity) refl refl)
  | inr e ↦ rw e (inr (refl, refl))
]
main-IsExit can_open (name ∷ verbosity ∷ file ∷ more ∷ rest) =
    finish-IsExit [] [] (mode_of verbosity) refl refl

finish-code :
    (opened closed : List Effect) (m : Option (Level × Bool))
    → ((finish opened closed m).0 ≡ 0) ↔ (m ≢ none)
unfolding finish
finish-code opened closed none = (λ h. absurd (omega arith), λ h. absurd (h refl))
finish-code opened closed (some p) = (λ h e. cc, λ h. refl)

exits :
    (v : Text) (opened closed : List Effect)
    → ((finish opened closed (mode_of v)).0 ≡ 0) ↔ IsVerbosity v
exits v opened closed =
    let (to, from) = finish-code opened closed (mode_of v) in
    (λ h. mode_of-IsVerbosity v (to h), λ h. from (mode_of-some v h))

-- With a file that opens, or none, the program exits with 0 for the five verbosities of its usage
-- message and for no other.
pub main-IsVerbosity :
    (can_open : Text → Bool) (name verbosity file : Text)
    → can_open file ≡ true
    → (((main can_open (name ∷ verbosity ∷ [])).0 ≡ 0) ↔ IsVerbosity verbosity)
      × (((main can_open (name ∷ verbosity ∷ file ∷ [])).0 ≡ 0) ↔ IsVerbosity verbosity)
unfolding main
main-IsVerbosity can_open name verbosity file h = rw h (exits verbosity [] [], exits verbosity _ _)
