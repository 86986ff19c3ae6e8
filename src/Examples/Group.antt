-- ===== src/Examples/Group.antt =====
-- Drivers with the ids 1, 2, 3 and so on, in a group, and messages that are bytes on the air.
use goby3_examples.Base.{length, ◌+◌, false, ℕ, suc, ◌≡◌, refl, ◌≢◌, true, [], ◌∷◌, Among, inl, ◌⊎◌}
use goby3_examples.Base.Int.{pos}
use goby3_examples.Base.Text.{codes}
use goby3_examples.Modem.{ModemTransmission, unset}
use goby3_examples.Multicast.{
  Driver, prepare, received, make_ack, wants_ack, endpoint, handle_initiate_transmission,
  start_send,
}
use goby3_examples.Multicast.Group.{
  Group, initiate, poll, Steps, stay, later, start, initiated, completed, id_of,
}
use goby3_examples.Multicast.Group.Count.{asked, air-count}
use goby3_examples.Multicast.Group.Delivery.{reached_delivered}
use goby3_examples.Multicast.Group.Answer.{initiate_answered, hears_log}
use goby3_examples.Examples.Codec.{codec, codec-RoundTrips}

abbrev pub drivers : ℕ → Driver
drivers i = record {
  driver_cfg = record {
    modem_id = pos (suc i);
    multicast_driver_cfg = record {
      listen_address = codes "0.0.0.0";
      multicast_address = codes "239.142.0.2";
      multicast_port = 50020;
      max_frame_size = pos 1400;
      rate_to_bytes = [];
    };
  };
  rate_to_bytes = [];
  receiver = endpoint 0 50020;
  next_frame = 0;
}

-- A slot that asks modem 2 for an ack of two frames.
abbrev pub ask : ModemTransmission → ModemTransmission
ask m = record m {
  src = pos 1;
  dest = pos 2;
  ack_requested = true;
  frame = codes "hello" ∷ codes "world" ∷ [];
}

abbrev pub keep : ModemTransmission → ModemTransmission
keep m = m

abbrev pub request : ModemTransmission
request = ask (prepare (drivers 0) unset)

initiate_answered_example :
    (h : Group) × Steps codec (initiated codec 0 keep ask unset (start drivers)) h
    × Among request h.sent
    × Among (pos 2, request) h.log
    × Among (pos 1, make_ack (drivers 1) request) h.log
unfolding prepare
initiate_answered_example =
    initiate_answered codec codec-RoundTrips (start drivers) 0 1 keep ask unset (λ e. cc) refl refl
      refl (refl, refl)

abbrev pub requested : Group
requested = initiated codec 0 keep ask unset (start drivers)

abbrev pub heard : Group
heard = completed codec 1 (received false (codec.serialize request)) requested

pub on_air : Among (codec.serialize request) requested.air
unfolding handle_initiate_transmission start_send prepare
on_air = inl refl

two_steps : Steps codec (start drivers) heard
two_steps =
    later (later stay (initiate 0 keep ask unset))
      (poll 1 (received false (codec.serialize request)) on_air)

reached_delivered_example :
    (request.src ≢ pos 2)
    × (Among request heard.sent
        ⊎ ((i : ℕ) × (orig : ModemTransmission) × Among (id_of heard i, orig) heard.log
            × (wants_ack (heard.driver i) orig ≡ true)
            × (request ≡ make_ack (heard.driver i) orig)
            × Among orig heard.sent))
unfolding prepare
reached_delivered_example =
    reached_delivered codec codec-RoundTrips drivers heard (pos 2) request two_steps
      (hears_log codec codec-RoundTrips requested 1 request (λ e. cc))

air-count_example : length heard.air ≡ length heard.sent + asked heard.log
air-count_example = air-count codec drivers heard two_steps
