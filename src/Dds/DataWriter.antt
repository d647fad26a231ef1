-- ===== src/Dds/DataWriter.antt =====
-- DataWriter of include/openrtdds/dds/static_entities.hpp. The template's sample type, type support,
-- history depth and serialized capacity are parameters. Operations return the result, the new writer
-- and the memory behind the datagram pointer that the caller gives.
use open_rtdds.Prelude.{
  ℕ, Bool, true, false, ◌&&◌, ◌||◌, not, List, [], Option, ltb, ◌!=◌, if◌then◌else◌, get_or,
  replicate, add64, BytePointer,
}
use open_rtdds.Rtps.Actions.{
  ReliabilityError, ReliabilityActionKind, ReliabilityAction, ActionBuffer, fresh,
}
use open_rtdds.Rtps.Messages.{Heartbeat, AckNack}
use open_rtdds.Rtps.Sent.{blank}
use open_rtdds.Rtps.Writer
use open_rtdds.Rtps.Writer.{ReliableWriter, fill_heartbeat}
use open_rtdds.Rtps.Codec
use open_rtdds.Rtps.Codec.{ReliabilityMessageBuilder, build_heartbeat}
use open_rtdds.Rtps.Codec.Parsing.{Parsed, parse_acknack_message}
use open_rtdds.Rtps.DataMessage
use open_rtdds.Rtps.DataMessage.{DataMessageConfig, DataMessageBuilder, build}
use open_rtdds.Serialization.Writer.{CdrWriter, begin, init as init_cdr}
use open_rtdds.Dds.Entities.{
  DdsError, DdsResult, empty_result, failed_with, serialization_result, rtps_result, message_result,
  reliability_result, sent_result, DomainParticipantConfig, DomainParticipant, TopicConfig, Topic,
  TypeSupport, StaticEndpointConfig, ReliableWriterQos, valid_endpoint, same_guid_prefix,
  make_writer_config, invalid_result,
}

pub record DataWriter : Type 0 where
  pub participant : DomainParticipantConfig
  pub topic : TopicConfig
  pub endpoint : StaticEndpointConfig
  pub serialized : List ℕ
  pub reliability : ReliableWriter
  pub next_sequence : ℕ
  pub participant_valid : Bool
  pub topic_valid : Bool
  pub endpoint_valid : Bool
  pub valid : Bool

abbrev pub data_config : DataWriter → ℕ → DataMessageConfig
data_config w sequence_number = record {
  version = w.participant.version;
  vendor_id = w.participant.vendor_id;
  guid_prefix = w.participant.guid_prefix;
  reader_id = w.endpoint.reader_id;
  writer_id = w.endpoint.writer_id;
  sequence_number = sequence_number;
  submessage_byte_order = w.endpoint.byte_order;
}

abbrev pub refuse : DataWriter → DdsResult
refuse w = invalid_result w.endpoint_valid w.topic_valid

abbrev pub Outcome : Type 0
Outcome = DdsResult × DataWriter × BytePointer

-- The array that a CdrWriter over it has written.
abbrev pub array_of : BytePointer → List ℕ
array_of Option.none = []
array_of (Option.some bytes) = bytes

-- The memory that an action points into: the sample of a record of the writer's history.
abbrev pub action_data : DataWriter → Option ℕ → BytePointer
action_data w Option.none = Option.none
action_data w (Option.some index) =
    Option.some (get_or w.reliability.records index blank).sample.payload

abbrev pub no_data : Option ℕ → Bool
no_data Option.none = true
no_data (Option.some index) = false

abbrev pub sends_data : ReliabilityActionKind → Bool
sends_data ReliabilityActionKind.send_data = true
sends_data ReliabilityActionKind.retransmit_data = true
sends_data _ = false

abbrev pub finish_data_action : ℕ → Bool × DataMessageBuilder → DdsResult × BytePointer
finish_data_action sequence_number (false, b) = (rtps_result b.error, b.buffer)
finish_data_action sequence_number (true, b) = (sent_result b.size sequence_number, b.buffer)

unfoldable pub build_data_action :
    DataWriter → ReliabilityAction → BytePointer → ℕ → DdsResult × BytePointer
build_data_action w action datagram capacity =
    if not w.valid
    then (refuse w, datagram)
    else if not (sends_data action.kind) || no_data action.payload || ltb action.data_size 4
    then (failed_with DdsError.invalid_action, datagram)
    else finish_data_action action.sequence_number (
        build (DataMessage.init datagram capacity) (data_config w action.sequence_number)
          (action_data w action.payload) action.data_size)

-- The heartbeat that is filled by the reliability state.
abbrev pub blank_heartbeat : DataWriter → Bool → Heartbeat
blank_heartbeat w final_flag = record {
  header = record {
    version = w.participant.version;
    vendor_id = w.participant.vendor_id;
    guid_prefix = w.participant.guid_prefix;
    submessage_byte_order = w.endpoint.byte_order;
  };
  reader_id = record { e0 = 0; e1 = 0; e2 = 0; e3 = 0 };
  writer_id = record { e0 = 0; e1 = 0; e2 = 0; e3 = 0 };
  first_sequence_number = 1;
  last_sequence_number = 0;
  count = 1;
  final_flag = final_flag;
  liveliness_flag = false;
}

abbrev pub finish_heartbeat_message :
    DataWriter → Heartbeat → Bool × ReliabilityMessageBuilder → Outcome
finish_heartbeat_message w heartbeat (false, b) = (message_result b.error, w, b.buffer)
finish_heartbeat_message w heartbeat (true, b) =
    (sent_result b.size heartbeat.last_sequence_number, w, b.buffer)

abbrev pub send_heartbeat :
    DataWriter → BytePointer → ℕ → ReliabilityError × ReliableWriter × Heartbeat → Outcome
send_heartbeat w datagram capacity (ReliabilityError.none, reliability, heartbeat) =
    finish_heartbeat_message (record w { reliability = reliability }) heartbeat
      (build_heartbeat (Codec.init datagram capacity) heartbeat)
send_heartbeat w datagram capacity (error, reliability, heartbeat) =
    (reliability_result error, record w { reliability = reliability }, datagram)

unfoldable pub build_heartbeat_datagram : DataWriter → BytePointer → ℕ → Bool → Outcome
build_heartbeat_datagram w datagram capacity final_flag =
    if not w.valid
    then (refuse w, w, datagram)
    else send_heartbeat w datagram capacity
        (fill_heartbeat w.reliability (blank_heartbeat w final_flag))

-- What an operation of the reliability state gives to the entity.
abbrev pub settle :
    DataWriter
    → ReliabilityError × ReliableWriter × ActionBuffer
    → DdsResult × DataWriter × ActionBuffer
settle w (ReliabilityError.none, reliability, actions) =
    (empty_result, record w { reliability = reliability }, actions)
settle w (error, reliability, actions) =
    (reliability_result error, record w { reliability = reliability }, actions)

abbrev pub take_acknack :
    ℕ → DataWriter → ℕ → ActionBuffer → Parsed AckNack → DdsResult × DataWriter × ActionBuffer
take_acknack capacity w now actions (Parsed.refused error) = (message_result error, w, actions)
take_acknack capacity w now actions (Parsed.parsed acknack) =
    if not (same_guid_prefix acknack.header.guid_prefix w.endpoint.remote_guid_prefix)
    then (failed_with DdsError.unexpected_participant, w, actions)
    else settle w (Writer.on_acknack capacity w.reliability acknack now actions)

unfoldable pub on_acknack :
    ℕ → DataWriter → BytePointer → ℕ → ℕ → ActionBuffer → DdsResult × DataWriter × ActionBuffer
on_acknack capacity w datagram size now actions =
    if not w.valid
    then (refuse w, w, actions)
    else take_acknack capacity w now actions (parse_acknack_message datagram size)

unfoldable pub on_timer : ℕ → DataWriter → ℕ → ActionBuffer → DdsResult × DataWriter × ActionBuffer
on_timer capacity w now actions =
    if not w.valid
    then (refuse w, w, actions)
    else settle w (Writer.on_timer capacity w.reliability now actions)

module _ {Sample : Type 0} (support : TypeSupport Sample) (depth max : ℕ) where
  unfoldable pub init :
      DomainParticipant → Topic → StaticEndpointConfig → ReliableWriterQos → DataWriter
  init publisher topic endpoint qos = record {
    participant = publisher.config;
    topic = topic.config;
    endpoint = endpoint;
    serialized = replicate max 0;
    reliability = Writer.init depth max (make_writer_config endpoint qos);
    next_sequence = 1;
    participant_valid = publisher.valid;
    topic_valid = topic.valid;
    endpoint_valid = valid_endpoint endpoint && qos.repair_window_ns != 0;
    valid =
        publisher.valid && topic.valid && (valid_endpoint endpoint && qos.repair_window_ns != 0);
  }

  -- The reliability state's answer, once the datagram is built.
  abbrev pub record_sample :
      DataWriter → DataMessageBuilder → ReliabilityError × ReliableWriter × ActionBuffer → Outcome
  record_sample w b (ReliabilityError.none, reliability, actions) = (
    sent_result b.size w.next_sequence,
    record w { reliability = reliability; next_sequence = add64 w.next_sequence 1 },
    b.buffer,
  )
  record_sample w b (error, reliability, actions) =
      (reliability_result error, record w { reliability = reliability }, b.buffer)

  abbrev pub store_sample : DataWriter → CdrWriter → ℕ → Bool × DataMessageBuilder → Outcome
  store_sample w cdr now (false, b) = (rtps_result b.error, w, b.buffer)
  store_sample w cdr now (true, b) =
      record_sample w b
        (Writer.write 1 depth max w.reliability cdr.buffer cdr.offset w.next_sequence now (fresh 1))

  abbrev pub send_sample : DataWriter → BytePointer → ℕ → ℕ → Bool × CdrWriter → Outcome
  send_sample w datagram capacity now (false, cdr) = (
    serialization_result DdsError.serialization_failed cdr.error,
    record w { serialized = array_of cdr.buffer },
    datagram,
  )
  send_sample w datagram capacity now (true, cdr) =
      store_sample (record w { serialized = array_of cdr.buffer }) cdr now
        (build (DataMessage.init datagram capacity) (data_config w w.next_sequence) cdr.buffer
          cdr.offset)

  -- `begin` and then, if it succeeds, `serialize`.
  abbrev pub serialized_by : Sample → Bool × CdrWriter → Bool × CdrWriter
  serialized_by sample (false, cdr) = (false, cdr)
  serialized_by sample (true, cdr) = support.serialize sample cdr

  unfoldable pub write : DataWriter → Sample → ℕ → BytePointer → ℕ → Outcome
  write w sample now datagram capacity =
      if not w.valid
      then (refuse w, w, datagram)
      else send_sample w datagram capacity now (
          serialized_by sample
            (begin (init_cdr (Option.some w.serialized) max) w.endpoint.byte_order))
