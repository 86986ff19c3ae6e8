-- ===== src/Multicast/Link.antt =====
-- What a driver sends, delivers and listens to, and how often it starts to listen.
use goby3_examples.Base.{
  ℕ, suc, ◌+◌, ◌≡◌, refl, Bool, true, false, Option, List, [], ◌∷◌, ◌++◌, arith,
}
use goby3_examples.Base.Text.{Text}
use goby3_examples.Modem.{ModemTransmission}
use goby3_examples.Multicast.{
  Driver, DriverConfig, Effect, Wire, Completion, sent, received, started, async_receive,
  async_send, receive, startup, start_send, receive_message, start_receive, send_complete,
  receive_complete, do_work,
}

abbrev sending : Effect → List Text
sending (async_send bytes to) = bytes ∷ []
sending _ = []

-- The packets that a list of effects sends.
abbrev pub packets : List Effect → List Text
packets [] = []
packets (e ∷ es) = sending e ++ packets es

abbrev receiving : Effect → List ModemTransmission
receiving (receive m) = m ∷ []
receiving _ = []

-- The messages that a list of effects hands to `signal_receive`.
abbrev pub delivered : List Effect → List ModemTransmission
delivered [] = []
delivered (e ∷ es) = receiving e ++ delivered es

abbrev arming : Effect → ℕ
arming async_receive = 1
arming _ = 0

-- How often a list of effects starts to listen.
abbrev pub armed : List Effect → ℕ
armed [] = 0
armed (e ∷ es) = arming e + armed es

abbrev pub arrivals : List Completion → ℕ
arrivals [] = 0
arrivals (sent error ∷ cs) = arrivals cs
arrivals (received error bytes ∷ cs) = suc (arrivals cs)

armed-append : (xs ys : List Effect) → armed (xs ++ ys) ≡ armed xs + armed ys
armed-append [] ys = omega arith
armed-append (x ∷ xs) ys = omega (arith, armed-append xs ys)

receive_message-armed :
    (w : Wire) (d : Driver) (m : ModemTransmission) → armed (receive_message w d m) ≡ 0
unfolding receive_message start_send
receive_message-armed w d m = ground arith

receive_complete-armed :
    (w : Wire) (d : Driver) (error : Bool) (bytes : Text)
    → armed (receive_complete w d error bytes) ≡ 1
unfolding receive_complete start_receive
receive_complete-armed w d true bytes = refl
receive_complete-armed w d false bytes = ground (
  arith,
  receive_message-armed w d (w.parse bytes),
  armed-append (receive_message w d (w.parse bytes)) (async_receive ∷ []),
)

do_work-armed :
    (w : Wire) (d : Driver) (cs : List Completion) → armed (do_work w d cs) ≡ arrivals cs
unfolding do_work send_complete
do_work-armed w d [] = refl
do_work-armed w d (sent error ∷ cs) = do_work-armed w d cs
do_work-armed w d (received error bytes ∷ cs) = omega (
  arith,
  armed-append (receive_complete w d error bytes) (do_work w d cs),
  receive_complete-armed w d error bytes,
  do_work-armed w d cs,
)

startup-armed :
    (make_address : Text → Option ℕ) (cfg : DriverConfig) (d d' : Driver) (es : List Effect)
    → startup make_address cfg d ≡ started d' es
    → armed es ≡ 1
unfolding startup
startup-armed make_address cfg d d' es h = ground arith

-- From a startup that returns, and through any completions with errors or without, the driver
-- has started one receive more than have completed: exactly one is always outstanding.
pub startup-do_work-armed :
    (make_address : Text → Option ℕ) (cfg : DriverConfig) (d d' : Driver) (es : List Effect)
    (w : Wire) (cs : List Completion)
    → startup make_address cfg d ≡ started d' es
    → armed (es ++ do_work w d' cs) ≡ arrivals cs + 1
startup-do_work-armed make_address cfg d d' es w cs h = omega (
  arith,
  armed-append es (do_work w d' cs),
  startup-armed make_address cfg d d' es h,
  do_work-armed w d' cs,
)
