-- ===== src/Dds/Entities.antt =====
-- The configurations and results of include/openrtdds/dds/static_entities.hpp and
-- src/dds/static_entities.cpp. TypeSupport is the template's parameter: code that an application
-- gives, with its operations as the fields of a record.
use open_rtdds.Prelude.{ℕ, Bool, ◌&&◌, not, Option, ◌==◌, ◌!=◌, if◌then◌else◌}
use open_rtdds.Rtps.Types.{ByteOrder, ProtocolVersion, VendorId, GuidPrefix, EntityId, bytes_eq}
use open_rtdds.Rtps.Wire.{supported_byte_order, supported_version}
use open_rtdds.Rtps.Router.{nonzero_prefix}
use open_rtdds.Rtps.Sent.{ReliableWriterConfig}
use open_rtdds.Rtps.Reader.{ReliableReaderConfig}
use open_rtdds.Rtps.Actions.{ReliabilityError}
use open_rtdds.Rtps.Codec.{ReliabilityMessageError}
use open_rtdds.Rtps.DataMessage.{RtpsError}
use open_rtdds.Serialization.Cdr.{CdrError}
use open_rtdds.Serialization.Writer.{CdrWriter}
use open_rtdds.Serialization.Reader.{CdrReader}

pub data DdsError : Type 0 where
  none invalid_participant invalid_topic invalid_endpoint : DdsError
  serialization_failed deserialization_failed rtps_data_failed : DdsError
  reliability_message_failed reliability_state_failed : DdsError
  unexpected_participant unexpected_endpoint invalid_action : DdsError

pub record DdsResult : Type 0 where
  pub error : DdsError
  pub cdr_error : CdrError
  pub rtps_error : RtpsError
  pub reliability_message_error : ReliabilityMessageError
  pub reliability_error : ReliabilityError
  pub bytes : ℕ
  pub sequence_number : ℕ

abbrev pub empty_result : DdsResult
empty_result = record {
  error = DdsError.none;
  cdr_error = CdrError.none;
  rtps_error = RtpsError.none;
  reliability_message_error = ReliabilityMessageError.none;
  reliability_error = ReliabilityError.none;
  bytes = 0;
  sequence_number = 0;
}

abbrev pub failed_with : DdsError → DdsResult
failed_with error = record empty_result { error = error }

abbrev pub serialization_result : DdsError → CdrError → DdsResult
serialization_result error cdr_error = record empty_result { error = error; cdr_error = cdr_error }

abbrev pub rtps_result : RtpsError → DdsResult
rtps_result rtps_error = record empty_result {
  error = DdsError.rtps_data_failed;
  rtps_error = rtps_error;
}

abbrev pub message_result : ReliabilityMessageError → DdsResult
message_result error = record empty_result {
  error = DdsError.reliability_message_failed;
  reliability_message_error = error;
}

abbrev pub reliability_result : ReliabilityError → DdsResult
reliability_result error = record empty_result {
  error = DdsError.reliability_state_failed;
  reliability_error = error;
}

abbrev pub sent_result : ℕ → ℕ → DdsResult
sent_result bytes sequence_number = record empty_result {
  bytes = bytes;
  sequence_number = sequence_number;
}

pub record DomainParticipantConfig : Type 0 where
  pub domain_id : ℕ
  pub version : ProtocolVersion
  pub vendor_id : VendorId
  pub guid_prefix : GuidPrefix

-- A DomainParticipant, a Publisher and a Subscriber each keep a configuration and whether it is valid.
pub record DomainParticipant : Type 0 where
  pub config : DomainParticipantConfig
  pub valid : Bool

abbrev pub make_participant : DomainParticipantConfig → DomainParticipant
make_participant config = record {
  config = config;
  valid = supported_version config.version && nonzero_prefix config.guid_prefix;
}

abbrev pub make_publisher : DomainParticipant → DomainParticipant
make_publisher participant = participant

abbrev pub make_subscriber : DomainParticipant → DomainParticipant
make_subscriber participant = participant

pub record TopicConfig : Type 0 where
  pub topic_id : ℕ
  pub type_id : ℕ

pub record Topic : Type 0 where
  pub config : TopicConfig
  pub valid : Bool

pub record TypeSupport (Sample : Type 0) : Type 0 where
  pub type_id : ℕ
  pub serialize : Sample → CdrWriter → Bool × CdrWriter
  pub deserialize : CdrReader → Option Sample × CdrReader

abbrev pub make_topic : {Sample : Type 0} → TypeSupport Sample → TopicConfig → Topic
make_topic support config = record {
  config = config;
  valid = config.topic_id != 0 && config.type_id != 0 && config.type_id == support.type_id;
}

pub record StaticEndpointConfig : Type 0 where
  pub reader_id : EntityId
  pub writer_id : EntityId
  pub remote_guid_prefix : GuidPrefix
  pub byte_order : ByteOrder

pub record ReliableWriterQos : Type 0 where
  pub max_repair_attempts : ℕ
  pub repair_window_ns : ℕ

abbrev pub nonzero_entity_id : EntityId → Bool
nonzero_entity_id id = not (id.e0 == 0 && id.e1 == 0 && id.e2 == 0 && id.e3 == 0)

abbrev pub valid_endpoint : StaticEndpointConfig → Bool
valid_endpoint endpoint =
    nonzero_entity_id endpoint.reader_id
    && nonzero_entity_id endpoint.writer_id
    && nonzero_prefix endpoint.remote_guid_prefix
    && supported_byte_order endpoint.byte_order

abbrev pub same_guid_prefix : GuidPrefix → GuidPrefix → Bool
same_guid_prefix left right = bytes_eq left right

abbrev pub make_writer_config : StaticEndpointConfig → ReliableWriterQos → ReliableWriterConfig
make_writer_config endpoint qos = record {
  reader_id = endpoint.reader_id;
  writer_id = endpoint.writer_id;
  max_repair_attempts = qos.max_repair_attempts;
  repair_window_ns = qos.repair_window_ns;
}

abbrev pub make_reader_config : StaticEndpointConfig → ReliableReaderConfig
make_reader_config endpoint = record {
  reader_id = endpoint.reader_id;
  writer_id = endpoint.writer_id;
  initial_sequence_number = 1;
}

-- `invalid_result` of a writer and of a reader.
abbrev pub invalid_result : Bool → Bool → DdsResult
invalid_result endpoint_valid topic_valid =
    if not endpoint_valid
    then failed_with DdsError.invalid_endpoint
    else if not topic_valid
    then failed_with DdsError.invalid_topic
    else failed_with DdsError.invalid_participant
