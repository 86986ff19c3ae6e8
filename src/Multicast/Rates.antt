-- ===== src/Multicast/Rates.antt =====
-- The frame size that a transmission gets from the rate table which `startup` builds.
use goby3_examples.Base.{◌≡◌, refl, ◌∙◌, Option, some, none, List, [], ◌∷◌, arith, if◌then◌else◌}
use goby3_examples.Base.Int.{ℤ, ◌==ℤ◌, ==ℤ_iff}
use goby3_examples.Base.Text.{Text}
use goby3_examples.Base.{ℕ}
use goby3_examples.Modem.{ModemTransmission}
use goby3_examples.Multicast.{
  Driver, DriverConfig, Effect, started, assign, find, fill, startup, prepare,
}

-- The last pair for a rate, or what is given.
abbrev pub last_match : ℤ → List (ℤ × ℤ) → Option ℤ → Option ℤ
last_match k [] found = found
last_match k ((j, v) ∷ pairs) found = last_match k pairs (if j ==ℤ k then some v else found)

find-assign :
    (k j v : ℤ) (m : List (ℤ × ℤ)) → find k (assign j v m) ≡ (if j ==ℤ k then some v else find k m)
unfolding find assign
find-assign k j v [] = refl
find-assign k j v ((i, w) ∷ m) =
    ground (arith, ==ℤ_iff i j, ==ℤ_iff j k, ==ℤ_iff i k, find-assign k j v m)

find-fill : (k : ℤ) (pairs m : List (ℤ × ℤ)) → find k (fill pairs m) ≡ last_match k pairs (find k m)
unfolding fill
find-fill k [] m = refl
find-fill k ((j, v) ∷ pairs) m = find-fill k pairs (assign j v m) ∙ rw (find-assign k j v m)

abbrev pub or_default : ℤ → Option ℤ → ℤ
or_default default none = default
or_default default (some n) = n

startup-driver :
    (make_address : Text → Option ℕ) (cfg : DriverConfig) (d d' : Driver) (es : List Effect)
    → startup make_address cfg d ≡ started d' es
    → (d'.driver_cfg ≡ cfg) × (d'.rate_to_bytes ≡ fill cfg.multicast_driver_cfg.rate_to_bytes [])
unfolding startup
startup-driver make_address cfg d d' es h = ground arith

prepare-size :
    (d : Driver) (msg : ModemTransmission)
    → msg.max_frame_bytes ≡ none
    → (prepare d msg).max_frame_bytes
      ≡ some (
          or_default d.driver_cfg.multicast_driver_cfg.max_frame_size
            (find msg.rate d.rate_to_bytes))
unfolding prepare
prepare-size d msg h = ground arith

-- After a startup that returns, a message with no frame size gets the bytes of the last
-- configured pair for its rate, and the configured maximum if its rate has no pair.
pub startup-prepare :
    (make_address : Text → Option ℕ) (cfg : DriverConfig) (d d' : Driver) (es : List Effect)
    (msg : ModemTransmission)
    → startup make_address cfg d ≡ started d' es
    → msg.max_frame_bytes ≡ none
    → let c = cfg.multicast_driver_cfg in
      (prepare d' msg).max_frame_bytes
      ≡ some (or_default c.max_frame_size (last_match msg.rate c.rate_to_bytes none))
startup-prepare make_address cfg d d' es msg h fresh =
    let c = cfg.multicast_driver_cfg in
    let (same, table) = startup-driver make_address cfg d d' es h in
    prepare-size d' msg fresh
    ∙ rw (same, table) (rw (find-fill msg.rate c.rate_to_bytes []) (unfold find in refl))
