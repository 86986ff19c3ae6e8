-- ===== src/DriverSimple.antt =====
-- src/components/acomms/modemdriver/driver_simple/driver_simple.cpp: a driver that sends one
-- message again and again.
--
-- `goby::util::as<uint32>` and the broadcast id are Goby's, and are given. What `main` does to the
-- driver is a list of effects; its endless loop is counted in rounds, and `int i` does not reach
-- 2 ^ 31 in the rounds considered.
pub mod Cycle
use goby3_examples.Base.{
  ℕ, zero, suc, ◌+◌, ◌%◌, Bool, true, false, ◌&&◌, Option, none, some, List, [], ◌∷◌, ◌++◌, map,
  leb, ◌==◌, if◌then◌else◌,
}
use goby3_examples.Base.Int.{ℤ, pos}
use goby3_examples.Base.Text.{Text, codes, text_eq}
use goby3_examples.Modem.{ModemTransmission, data_type, unset}

pub data Kind : Type 0 where
  mm_driver abc_driver : Kind

pub record Config : Type 0 where
  pub serial_port : Text
  pub modem_id : ℕ
  pub nvram_cfg : List Text

pub data Effect : Type 0 where
  start : Kind → Config → Effect
  transmit : ModemTransmission → Effect
  do_work : Effect

abbrev pub lower : ℕ → ℕ
lower c = if leb b'A' c && leb c b'Z' then c + 32 else c

-- `boost::iequals`, in the C locale.
unfoldable pub iequals : Text → Text → Bool
iequals s t = text_eq (map lower s) (map lower t)

-- The driver made for the arguments behind the id: `argc == 4` if there is one of them.
unfoldable pub kind_of : List Text → Kind
unfolding iequals
kind_of (name ∷ []) = if iequals name (codes "ABCDriver") then abc_driver else mm_driver
kind_of _ = mm_driver

abbrev pub nvram_for : Kind → List Text
nvram_for mm_driver = codes "DQF,1" ∷ []
nvram_for abc_driver = []

unfoldable pub hello : ℤ → ℕ → ModemTransmission
hello broadcast_id our_id = record unset {
  type = data_type;
  src = pos our_id;
  dest = broadcast_id;
  rate = pos 0;
  frame = codes "Hello, world!" ∷ [];
  ack_requested = Bool.false;
}

-- The `while` loop from a value of `i`, for a number of rounds.
unfoldable pub loop : ModemTransmission → ℕ → ℕ → List Effect
loop m zero i = []
loop m (suc rounds) i =
    do_work ∷ ((if (i + 1) % 600 == 0 then transmit m ∷ [] else []) ++ loop m rounds (i + 1))

-- `main` on its arguments; `none` is the usage message.
unfoldable pub main : (Text → ℕ) → ℤ → List Text → ℕ → Option (List Effect)
unfolding kind_of loop hello
main as_uint32 broadcast_id (name ∷ port ∷ id ∷ more) rounds =
    let m = hello broadcast_id (as_uint32 id) in
    let kind = kind_of more in
    some (
      start kind
        (record { serial_port = port; modem_id = as_uint32 id; nvram_cfg = nvram_for kind })
      ∷ transmit m
      ∷ loop m rounds 0)
main as_uint32 broadcast_id _ rounds = none
