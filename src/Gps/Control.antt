-- ===== src/Gps/Control.antt =====
-- What commands, and the controllers that send them, do to the driver's serial thread.
use goby3_examples.Base.{
  ◌≡◌, refl, ap, Bool, true, false, none, some, List, [], ◌∷◌, ◌++◌, Bool-cases, inl, inr,
}
use goby3_examples.Gps.{
  ThreadManager, gps_driver, incoming_command, ControllerEffect, publish_command, quit,
  gps_controller,
}

-- What Goby documents: a thread that does not run can be launched and one that runs can be joined,
-- and the other two calls throw.
pub record IsManager (tm : ThreadManager) : Type 0 where
  pub launch :
      (t : tm.Threads)
      → tm.runs_serial t ≡ false
      → (u : tm.Threads) × (tm.launch_serial t ≡ some u) × (tm.runs_serial u ≡ true)
  pub join :
      (t : tm.Threads)
      → tm.runs_serial t ≡ true
      → (u : tm.Threads) × (tm.join_serial t ≡ some u) × (tm.runs_serial u ≡ false)
  pub launch_throws : (t : tm.Threads) → tm.runs_serial t ≡ true → tm.launch_serial t ≡ none
  pub join_throws : (t : tm.Threads) → tm.runs_serial t ≡ false → tm.join_serial t ≡ none

-- The commands among what a controller does.
abbrev pub sent : List ControllerEffect → List Bool
sent [] = []
sent (publish_command b ∷ es) = b ∷ sent es
sent (quit ∷ es) = sent es

-- Controllers that run one after the other, each with its own setting.
abbrev pub controllers : List Bool → List Bool
controllers [] = []
controllers (b ∷ bs) = sent (gps_controller b) ++ controllers bs

controllers-eq : (bs : List Bool) → controllers bs ≡ bs
unfolding gps_controller
controllers-eq [] = refl
controllers-eq (b ∷ bs) = ap (λ r. b ∷ r) (controllers-eq bs)

-- The last of some settings, or the one that is given.
abbrev pub last : Bool → List Bool → Bool
last b [] = b
last b (c ∷ bs) = last c bs

module _ (tm : ThreadManager) (ok : IsManager tm) where
  pub command-runs : (b : Bool) (t : tm.Threads) → tm.runs_serial (incoming_command tm b t) ≡ b
  unfolding incoming_command
  command-runs true t = elim (Bool-cases (tm.runs_serial t)) [
    | inl e ↦ rw (ok.launch_throws t e) e
    | inr e ↦ let (u, f, g) = ok.launch t e in rw f g
  ]
  command-runs false t = elim (Bool-cases (tm.runs_serial t)) [
    | inl e ↦ let (u, f, g) = ok.join t e in rw f g
    | inr e ↦ rw (ok.join_throws t e) e
  ]

  command-same : (b : Bool) (t : tm.Threads) → tm.runs_serial t ≡ b → incoming_command tm b t ≡ t
  unfolding incoming_command
  command-same true t h = rw (ok.launch_throws t h)
  command-same false t h = rw (ok.join_throws t h)

  pub commands : List Bool → tm.Threads → tm.Threads
  commands [] t = t
  commands (b ∷ bs) t = commands bs (incoming_command tm b t)

  commands-runs :
      (bs : List Bool) (b : Bool) (t : tm.Threads)
      → tm.runs_serial t ≡ b
      → tm.runs_serial (commands bs t) ≡ last b bs
  unfolding commands
  commands-runs [] b t h = h
  commands-runs (c ∷ bs) b t h = commands-runs bs c (incoming_command tm c t) (command-runs c t)

  commands_again :
      (bs : List Bool) (b : Bool) (t : tm.Threads)
      → tm.runs_serial t ≡ b
      → commands (bs ++ last b bs ∷ []) t ≡ commands bs t
  unfolding commands
  commands_again [] b t h = command-same b t h
  commands_again (c ∷ bs) b t h = commands_again bs c (incoming_command tm c t) (command-runs c t)

  pub gps_driver-runs : (t u : tm.Threads) → gps_driver tm t ≡ some u → tm.runs_serial u ≡ true
  unfolding gps_driver
  gps_driver-runs t u h = elim (Bool-cases (tm.runs_serial t)) [
    | inl e ↦ cc (ok.launch_throws t e)
    | inr e ↦ let (v, f, g) = ok.launch t e in cc
  ]

  -- With threads that behave as Goby documents: once the driver has been constructed and any
  -- controllers have run one after the other, the serial thread runs exactly if the last controller
  -- is configured to read the GPS, or if there was none; and a controller that asks for what is so
  -- already changes nothing.
  pub gps_driver-controllers :
      (bs : List Bool) (t u : tm.Threads)
      → gps_driver tm t ≡ some u
      → (tm.runs_serial (commands (controllers bs) u) ≡ last true bs)
        × (commands (controllers (bs ++ last true bs ∷ [])) u ≡ commands (controllers bs) u)
  gps_driver-controllers bs t u h =
      let runs = gps_driver-runs t u h in
      rw (controllers-eq bs, controllers-eq (bs ++ last true bs ∷ []))
        (commands-runs bs true u runs, commands_again bs true u runs)
