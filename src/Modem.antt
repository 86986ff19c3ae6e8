-- ===== src/Modem.antt =====
-- The link-layer message `goby::acomms::protobuf::ModemTransmission`, with the fields that the
-- programs under src/components/acomms read or set. The message type itself is Goby's, a generated
-- Protobuf class: here it is a record, a field with a `has_` test is an `Option`, and the number
-- that a setter is given is kept as it is given.
use goby3_examples.Base.{ℕ, Bool, false, Option, none, List, []}
use goby3_examples.Base.Int.{ℤ, pos}
use goby3_examples.Base.Text.{Text}

-- `ModemTransmission::DATA`, `ACK` and `DRIVER_SPECIFIC`.
pub data TransmissionType : Type 0 where
  data_type ack_type driver_specific : TransmissionType

abbrev pub is_data : TransmissionType → Bool
is_data data_type = Bool.true
is_data _ = false

-- The Micro-Modem extension's transmission types, as far as the programs name them.
pub data MicromodemType : Type 0 where
  remus_lbl_ranging narrowband_lbl_ranging : MicromodemType

pub record ModemTransmission : Type 0 where
  pub type : TransmissionType
  pub src : ℤ
  pub dest : ℤ
  pub rate : ℤ
  pub ack_requested : Bool
  pub frame_start : Option ℕ
  pub max_frame_bytes : Option ℤ
  pub max_num_frames : Option ℕ
  pub frame : List Text
  pub acked_frame : List ℤ
  pub slot_seconds : ℕ
  pub micromodem_type : Option MicromodemType

-- A message with no field set, as the setters find it.
abbrev pub unset : ModemTransmission
unset = record {
  type = data_type;
  src = pos 0;
  dest = pos 0;
  rate = pos 0;
  ack_requested = false;
  frame_start = none;
  max_frame_bytes = none;
  max_num_frames = none;
  frame = [];
  acked_frame = [];
  slot_seconds = 0;
  micromodem_type = none;
}

-- `goby::acomms::protobuf::MACConfig`, as far as the programs set it.
pub data MacType : Type 0 where
  fixed_decentralized : MacType

pub record MacConfig : Type 0 where
  pub type : MacType
  pub modem_id : ℤ
  pub slot : List ModemTransmission
