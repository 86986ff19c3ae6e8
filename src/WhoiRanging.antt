-- ===== src/WhoiRanging.antt =====
-- src/components/acomms/modemdriver/whoi_ranging/whoi_ranging.cpp: a driver that asks for an
-- acoustic range again and again, by one of two kinds of ping.
--
-- `goby::util::as<unsigned>` is Goby's, and is given. What `main` does to the driver and to
-- `std::cout` is a list of effects; its endless loop is counted in rounds.
pub mod Cycle
use goby3_examples.Base.{
  ℕ, zero, suc, ◌+◌, ◌%◌, Bool, true, false, ◌||◌, Option, none, some, List, [], ◌∷◌, ◌++◌, ◌==◌,
  if◌then◌else◌,
}
use goby3_examples.Base.Int.{ℤ, pos}
use goby3_examples.Base.Text.{Text, codes, text_eq}
use goby3_examples.Modem.{
  ModemTransmission, MicromodemType, driver_specific, remus_lbl_ranging, narrowband_lbl_ranging,
  unset,
}

-- The ranging parameters of the driver's configuration.
pub data Params : Type 0 where
  remus : (turnaround_ms enable_beacons lbl_max_range : ℕ) → Params
  narrowband :
      (turnaround_ms transmit_freq transmit_ping_ms receive_ping_ms : ℕ) (receive_freq : List ℕ)
      (transmit_flag : Bool) (lbl_max_range : ℕ)
      → Params

pub data Effect : Type 0 where
  start : Text → ℤ → Option Params → Effect
  transmit announce : ModemTransmission → Effect
  do_work : Effect

abbrev pub our_id : ℤ
our_id = pos 1

unfoldable pub params_for : Text → ℕ → Option Params
params_for type range =
    if text_eq type (codes "remus")
    then some (remus 50 15 range)
    else if text_eq type (codes "narrowband")
    then some (narrowband 20 26000 5 5 (25000 ∷ []) true range)
    else none

unfoldable pub request_for : Text → ModemTransmission
request_for type = record unset {
  src = our_id;
  type = driver_specific;
  micromodem_type =
      some (if text_eq type (codes "remus") then remus_lbl_ranging else narrowband_lbl_ranging);
}

-- The `while` loop from a value of `i`, for a number of rounds. `i` is an int, which overflows at
-- 2 ^ 31: the definition is for fewer rounds than that.
unfoldable pub loop : ModemTransmission → ℕ → ℕ → List Effect
loop m zero i = []
loop m (suc rounds) i =
    do_work
    ∷ ((if (i + 1) % 600 == 0 then transmit m ∷ announce m ∷ [] else []) ++ loop m rounds (i + 1))

-- `main` on its arguments; `none` is a call of `usage`.
unfoldable pub main : (Text → ℕ) → List Text → ℕ → Option (List Effect)
unfolding params_for request_for loop
main as_unsigned (name ∷ port ∷ type ∷ range ∷ more) rounds =
    let request = request_for type in
    if text_eq type (codes "narrowband") || text_eq type (codes "remus")
    then some (
        start port our_id (params_for type (as_unsigned range))
        ∷ announce request
        ∷ transmit request
        ∷ loop request rounds 0)
    else none
main as_unsigned _ rounds = none
