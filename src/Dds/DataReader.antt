-- ===== src/Dds/DataReader.antt =====
-- DataReader of include/openrtdds/dds/static_entities.hpp. The template's sample type, type support
-- and window are parameters. Operations return the result and the new reader, with the sample that is
-- handed over or the memory behind the response pointer.
use open_rtdds.Prelude.{
  ℕ, Bool, true, false, ◌&&◌, ◌||◌, not, Option, ◌==◌, if◌then◌else◌, get_or, BytePointer,
}
use open_rtdds.Rtps.Types.{entity_ne}
use open_rtdds.Rtps.Actions.{ReliabilityError, ReliabilityAction, ActionBuffer, fresh, no_action}
use open_rtdds.Rtps.Messages.{Heartbeat, AckNack}
use open_rtdds.Rtps.Reader
use open_rtdds.Rtps.Reader.{ReliableReader, on_data}
use open_rtdds.Rtps.Codec
use open_rtdds.Rtps.Codec.{ReliabilityMessageBuilder, build_acknack}
use open_rtdds.Rtps.Codec.Parsing.{Parsed, parse_heartbeat_message}
use open_rtdds.Rtps.DataMessage
use open_rtdds.Rtps.DataMessage.{DataMessageView, parse_data_message}
use open_rtdds.Serialization.Reader.{CdrReader, begin, init as init_cdr}
use open_rtdds.Dds.Entities.{
  DdsError, DdsResult, empty_result, failed_with, serialization_result, rtps_result, message_result,
  reliability_result, sent_result, DomainParticipantConfig, DomainParticipant, TopicConfig, Topic,
  TypeSupport, StaticEndpointConfig, valid_endpoint, same_guid_prefix, make_reader_config,
  invalid_result,
}

pub record DataReader : Type 0 where
  pub participant : DomainParticipantConfig
  pub topic : TopicConfig
  pub endpoint : StaticEndpointConfig
  pub reliability : ReliableReader
  pub participant_valid : Bool
  pub topic_valid : Bool
  pub endpoint_valid : Bool
  pub valid : Bool

abbrev pub refuse : DataReader → DdsResult
refuse r = invalid_result r.endpoint_valid r.topic_valid

-- The reply that is built for the one action of a heartbeat.
abbrev pub acknack_of : DataReader → ReliabilityAction → AckNack
acknack_of r action = record {
  header = record {
    version = r.participant.version;
    vendor_id = r.participant.vendor_id;
    guid_prefix = r.participant.guid_prefix;
    submessage_byte_order = r.endpoint.byte_order;
  };
  reader_id = action.reader_id;
  writer_id = action.writer_id;
  reader_state = action.reader_state;
  count = action.control_count;
  final_flag = action.final_flag;
}

abbrev pub Replied : Type 0
Replied = DdsResult × DataReader × BytePointer

abbrev pub finish_response : DataReader → Bool × ReliabilityMessageBuilder → Replied
finish_response r (false, b) = (message_result b.error, r, b.buffer)
finish_response r (true, b) = (sent_result b.size 0, r, b.buffer)

abbrev pub respond : DataReader → BytePointer → ℕ → ActionBuffer → Replied
respond r response capacity actions =
    if actions.size == 0
    then (empty_result, r, response)
    else finish_response r (
        build_acknack (Codec.init response capacity)
          (acknack_of r (get_or actions.actions 0 no_action)))

abbrev pub settle_heartbeat :
    DataReader → BytePointer → ℕ → ReliabilityError × ReliableReader × ActionBuffer → Replied
settle_heartbeat r response capacity (ReliabilityError.none, reliability, actions) =
    respond (record r { reliability = reliability }) response capacity actions
settle_heartbeat r response capacity (error, reliability, actions) =
    (reliability_result error, record r { reliability = reliability }, response)

module _ {Sample : Type 0} (support : TypeSupport Sample) (window : ℕ) where
  unfoldable pub init : DomainParticipant → Topic → StaticEndpointConfig → DataReader
  init subscriber topic endpoint = record {
    participant = subscriber.config;
    topic = topic.config;
    endpoint = endpoint;
    reliability = Reader.init window (make_reader_config endpoint);
    participant_valid = subscriber.valid;
    topic_valid = topic.valid;
    endpoint_valid = valid_endpoint endpoint;
    valid = subscriber.valid && topic.valid && valid_endpoint endpoint;
  }

  -- The sample is `none` where the caller's sample is not changed.
  abbrev pub Taken : Type 0
  Taken = DdsResult × DataReader × Option Sample

  abbrev pub accept_sample :
      DataReader → ℕ → ℕ → Sample → ReliabilityError × ReliableReader × ActionBuffer → Taken
  accept_sample r size sequence sample (ReliabilityError.none, reliability, actions) =
      (sent_result size sequence, record r { reliability = reliability }, Option.some sample)
  accept_sample r size sequence sample (error, reliability, actions) =
      (reliability_result error, record r { reliability = reliability }, Option.none)

  abbrev pub deliver_sample : DataReader → ℕ → ℕ → Option Sample × CdrReader → Taken
  deliver_sample r size sequence (Option.none, cdr) =
      (serialization_result DdsError.deserialization_failed cdr.error, r, Option.none)
  deliver_sample r size sequence (Option.some sample, cdr) =
      accept_sample r size sequence sample (on_data window 1 r.reliability sequence (fresh 1))

  -- `begin` and then, if it succeeds, `deserialize`.
  abbrev pub deserialized_by : Bool × CdrReader → Option Sample × CdrReader
  deserialized_by (false, cdr) = (Option.none, cdr)
  deserialized_by (true, cdr) = support.deserialize cdr

  abbrev pub take_view : DataReader → ℕ → DataMessage.Parsed → Taken
  take_view r size (DataMessage.Parsed.refused error) = (rtps_result error, r, Option.none)
  take_view r size (DataMessage.Parsed.parsed view) =
      if not (same_guid_prefix view.guid_prefix r.endpoint.remote_guid_prefix)
      then (failed_with DdsError.unexpected_participant, r, Option.none)
      else if entity_ne view.reader_id r.endpoint.reader_id
          || entity_ne view.writer_id r.endpoint.writer_id
      then (failed_with DdsError.unexpected_endpoint, r, Option.none)
      else deliver_sample r size view.sequence_number
          (deserialized_by (begin (init_cdr view.serialized_payload view.payload_size)))

  unfoldable pub take : DataReader → BytePointer → ℕ → Taken
  take r datagram size =
      if not r.valid
      then (refuse r, r, Option.none)
      else take_view r size (parse_data_message datagram size)

abbrev pub take_heartbeat : ℕ → DataReader → BytePointer → ℕ → Parsed Heartbeat → Replied
take_heartbeat window r response capacity (Parsed.refused error) =
    (message_result error, r, response)
take_heartbeat window r response capacity (Parsed.parsed heartbeat) =
    if not (same_guid_prefix heartbeat.header.guid_prefix r.endpoint.remote_guid_prefix)
    then (failed_with DdsError.unexpected_participant, r, response)
    else settle_heartbeat r response capacity
        (Reader.on_heartbeat window 1 r.reliability heartbeat (fresh 1))

unfoldable pub on_heartbeat : ℕ → DataReader → BytePointer → ℕ → BytePointer → ℕ → Replied
on_heartbeat window r datagram size response response_capacity =
    if not r.valid
    then (refuse r, r, response)
    else take_heartbeat window r response response_capacity (parse_heartbeat_message datagram size)
