-- ===== src/Examples/Attribution.antt =====
-- The ack of modem 2, as modem 1 hears it.
use goby3_examples.Base.{◌≡◌, refl, ◌≢◌, true, false, Among, inl, inr, arith, ℕ}
use goby3_examples.Base.Int.{pos}
use goby3_examples.Modem.{ModemTransmission, unset, ack_type}
use goby3_examples.Multicast.{prepare, received, make_ack, handle_initiate_transmission, start_send}
use goby3_examples.Multicast.Group.{Group, start, completed, id_of}
use goby3_examples.Multicast.Acks.{make_ack-acked_frame}
use goby3_examples.Multicast.Group.Answer.{hears_log, hears_air}
use goby3_examples.Multicast.Group.Numbers.{IsTidy, TidySteps, stays, initiates, polls}
use goby3_examples.Multicast.Group.Attribution.{ack_confirms}
use goby3_examples.Examples.Codec.{codec, codec-RoundTrips}
use goby3_examples.Examples.Group.{drivers, ask, keep, request, requested, heard, on_air}

abbrev ack : ModemTransmission
ack = make_ack (drivers 1) request

abbrev acked : Group
acked = completed codec 0 (received false (codec.serialize ack)) heard

ask-IsTidy : IsTidy (drivers 0) keep ask unset
unfolding prepare
ask-IsTidy = record {
  keeps_modify = λ m. refl;
  keeps_request = λ m. refl;
  fresh = refl;
  own = refl;
  plain = refl;
  room = omega arith;
}

answered : Among (codec.serialize ack) heard.air
unfolding prepare handle_initiate_transmission
answered = hears_air codec codec-RoundTrips requested 1 request (λ e. cc) refl

tidy_steps : TidySteps codec (start drivers) acked
tidy_steps =
    polls 0 (received false (codec.serialize ack))
      (polls 1 (received false (codec.serialize request))
        (initiates 0 keep ask unset stays ask-IsTidy) on_air)
      answered

apart_ids : (i j : ℕ) → id_of (start drivers) i ≡ id_of (start drivers) j → i ≡ j
apart_ids i j e = cc

sent_request : Among request acked.sent
unfolding handle_initiate_transmission start_send prepare
sent_request = inl refl

named : Among (pos 1) ack.acked_frame
unfolding prepare
named = rw (make_ack-acked_frame (drivers 1) request (omega arith)) (inr (inl refl))

ack_from : ack.type ≡ ack_type
unfolding make_ack
ack_from = refl

ack_to : request.src ≡ ack.dest
unfolding make_ack
ack_to = refl

other_end : ack.src ≢ id_of heard 0
unfolding make_ack handle_initiate_transmission
other_end e = cc

ack_heard : Among (pos 1, ack) acked.log
unfolding handle_initiate_transmission
ack_heard = hears_log codec codec-RoundTrips heard 0 ack other_end

ack_confirms_example :
    (i : ℕ) × (ack.src ≡ id_of acked i)
    × (request.dest ≡ id_of acked i)
    × (request.ack_requested ≡ true)
    × Among (id_of acked i, request) acked.log
unfolding prepare
ack_confirms_example =
    ack_confirms codec codec-RoundTrips drivers acked (pos 1) ack request 1 apart_ids tidy_steps
      ack_heard ack_from named sent_request ack_to (omega arith) (omega arith)
