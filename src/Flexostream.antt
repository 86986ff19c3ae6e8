-- ===== src/Flexostream.antt =====
-- src/components/util/flexostream_simple/flexostream_simple.cpp: the logger at one verbosity.
--
-- What `main` does to `glog`, to its file and to the timer is a list of effects; names, groups and
-- the banner that it prints first are left out. Whether the file can be opened is given.
pub mod Exits
use goby3_examples.Base.{
  ℕ, Bool, true, false, Option, none, some, List, [], ◌∷◌, ◌++◌, if◌then◌else◌,
}
use goby3_examples.Base.Text.{Text, codes, text_eq}

pub data Level : Type 0 where
  quiet warn verbose debug1 : Level

pub data Effect : Type 0 where
  open_file add_file_stream : Text → Effect
  add_cout : Level → Effect
  output enable_gui wait close_file : Effect

-- The name is in the class, the level that the standard output gets and whether the GUI is on.
unfoldable pub mode_of : Text → Option (Level × Bool)
mode_of v =
    if text_eq v (codes "quiet")
    then some (quiet, false)
    else if text_eq v (codes "warn")
    then some (warn, false)
    else if text_eq v (codes "verbose")
    then some (verbose, false)
    else if text_eq v (codes "debug")
    then some (debug1, false)
    else if text_eq v (codes "gui")
    then some (verbose, true)
    else none

-- A branch of the chain of tests.
pub show : Level → Bool → List Effect
show level true = add_cout level ∷ enable_gui ∷ output ∷ wait ∷ []
show level false = add_cout level ∷ output ∷ []

-- The exit code, and the effects up to it.
pub finish : List Effect → List Effect → Option (Level × Bool) → ℕ × List Effect
finish opened closing none = (1, opened)
finish opened closing (some (level, gui)) = (0, opened ++ (show level gui ++ closing))

-- The arguments behind the verbosity: a file is named only if `argc == 3`.
unfoldable pub main : (Text → Bool) → List Text → ℕ × List Effect
unfolding mode_of show finish
main can_open [] = (1, [])
main can_open (name ∷ []) = (1, [])
main can_open (name ∷ verbosity ∷ file ∷ []) =
    if can_open file
    then finish (open_file file ∷ add_file_stream file ∷ []) (close_file ∷ []) (mode_of verbosity)
    else (1, open_file file ∷ [])
main can_open (name ∷ verbosity ∷ _) = finish [] [] (mode_of verbosity)
