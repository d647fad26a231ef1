-- ===== src/Rtps/DataMessage.antt =====
-- include/openrtdds/rtps/data_message.hpp and src/rtps/data_message.cpp: the builder and the parser
-- of one DATA submessage. The builder's call returns the answer and the new builder; the parser
-- returns the view that it writes, or the error.
pub mod RoundTrip
pub mod Routed
pub mod Bounds
mod Tests
use open_rtdds.Prelude.{
  ℕ, ◌+◌, ◌-◌, ◌*◌, ◌/◌, ◌%◌, ◌^◌, Bool, true, false, ◌&&◌, ◌||◌, not, Option, ltb, leb, ◌==◌, ◌!=◌,
  if◌then◌else◌, bit_and, bit_or, BytePointer, int64_max, size_max,
}
use open_rtdds.Core.History.{is_null, pointed}
use open_rtdds.Rtps.Types.{
  ByteOrder, ProtocolVersion, VendorId, GuidPrefix, EntityId, big_endian, little_endian,
}
use open_rtdds.Serialization.Cdr.{byte_at, put_byte, copy_to}
use open_rtdds.Rtps.Wire.{
  pointer_at, supported_byte_order, supported_version, write_uint16, write_sequence_number,
  read_uint16, read_uint32, or_byte, entity_bytes, entity_at, write_rtps_header,
}
use open_rtdds.Rtps.Router.{
  MessageRouteError, RoutedSubmessageView, find_submessage, submessage_id_data,
}

pub data RtpsError : Type 0 where
  none invalid_argument buffer_overflow message_too_large : RtpsError
  truncated invalid_protocol unsupported_version unsupported_submessage : RtpsError
  unsupported_feature invalid_submessage invalid_sequence_number : RtpsError
  invalid_serialized_payload : RtpsError

abbrev pub is_good : RtpsError → Bool
is_good RtpsError.none = true
is_good _ = false

pub record DataMessageConfig : Type 0 where
  pub version : ProtocolVersion
  pub vendor_id : VendorId
  pub guid_prefix : GuidPrefix
  pub reader_id : EntityId
  pub writer_id : EntityId
  pub sequence_number : ℕ
  pub submessage_byte_order : ByteOrder

pub record DataMessageView : Type 0 where
  pub version : ProtocolVersion
  pub vendor_id : VendorId
  pub guid_prefix : GuidPrefix
  pub destination_guid_prefix : GuidPrefix
  pub has_destination : Bool
  pub source_timestamp_seconds : ℕ
  pub source_timestamp_fraction : ℕ
  pub has_source_timestamp : Bool
  pub reader_id : EntityId
  pub writer_id : EntityId
  pub sequence_number : ℕ
  pub submessage_byte_order : ByteOrder
  pub serialized_payload : BytePointer
  pub payload_size : ℕ

pub record DataMessageBuilder : Type 0 where
  pub buffer : BytePointer
  pub capacity : ℕ
  pub size : ℕ
  pub error : RtpsError

unfoldable pub init : BytePointer → ℕ → DataMessageBuilder
init buffer capacity = record {
  buffer = buffer;
  capacity = capacity;
  size = 0;
  error = if is_null buffer && capacity != 0 then RtpsError.invalid_argument else RtpsError.none;
}

abbrev pub fail : DataMessageBuilder → RtpsError → Bool × DataMessageBuilder
fail b error = (false, record b { error = if is_good b.error then error else b.error })

abbrev pub supported_serialized_payload : BytePointer → ℕ → Bool
supported_serialized_payload payload payload_size =
    not (is_null payload)
    && leb 4 payload_size
    && byte_at payload 0 == 0
    && leb (byte_at payload 1) 3

abbrev pub is_little : ByteOrder → Bool
is_little little_endian = true
is_little big_endian = false

-- The bytes of the message, from the header on.
unfoldable pub write_data_message :
    BytePointer → DataMessageConfig → BytePointer → ℕ → ByteOrder → BytePointer
write_data_message b config payload payload_size order =
    let headed = write_rtps_header b config.version config.vendor_id config.guid_prefix in
    let named = put_byte (put_byte headed 20 submessage_id_data) 21 0x04 in
    let flagged = if is_little order then or_byte named 21 0x01 else named in
    let sized = write_uint16 flagged 22 ((20 + payload_size) % 2 ^ 16) order in
    let offsets = write_uint16 (write_uint16 sized 24 0 order) 26 16 order in
    let addressed =
      copy_to (copy_to offsets 28 (entity_bytes config.reader_id)) 32
        (entity_bytes config.writer_id) in
    let numbered = write_sequence_number addressed 36 config.sequence_number order in
    copy_to numbered 44 (pointed payload payload_size)

-- The test of the sum against the largest std::size_t comes first, so the sums do not wrap.
unfoldable pub build :
    DataMessageBuilder → DataMessageConfig → BytePointer → ℕ → Bool × DataMessageBuilder
build b0 config payload payload_size =
    let b = record b0 { size = 0; error = RtpsError.none } in
    if is_null b.buffer && b.capacity != 0
    then fail b RtpsError.invalid_argument
    else if not (supported_version config.version)
    then fail b RtpsError.unsupported_version
    else if not (supported_byte_order config.submessage_byte_order)
    then fail b RtpsError.invalid_argument
    else if config.sequence_number == 0 || ltb int64_max config.sequence_number
    then fail b RtpsError.invalid_sequence_number
    else if not (supported_serialized_payload payload payload_size)
    then fail b RtpsError.invalid_serialized_payload
    else if ltb (size_max - 44) payload_size
    then fail b RtpsError.message_too_large
    else if ltb 65507 (44 + payload_size)
    then fail b RtpsError.message_too_large
    else if ltb b.capacity (44 + payload_size)
    then fail b RtpsError.buffer_overflow
    else if ltb 65535 (20 + payload_size)
    then fail b RtpsError.message_too_large
    else (
      true,
      record b {
        buffer =
            write_data_message b.buffer config payload payload_size config.submessage_byte_order;
        size = 44 + payload_size;
      },
    )

abbrev pub route_error : MessageRouteError → RtpsError
route_error MessageRouteError.none = RtpsError.none
route_error MessageRouteError.invalid_argument = RtpsError.invalid_argument
route_error MessageRouteError.truncated = RtpsError.truncated
route_error MessageRouteError.invalid_protocol = RtpsError.invalid_protocol
route_error MessageRouteError.unsupported_version = RtpsError.unsupported_version
route_error MessageRouteError.submessage_not_found = RtpsError.unsupported_submessage
route_error MessageRouteError.malformed_submessage = RtpsError.invalid_submessage
route_error MessageRouteError.invalid_info_submessage = RtpsError.invalid_submessage

pub data Parsed : Type 0 where
  parsed : DataMessageView → Parsed
  refused : RtpsError → Parsed

abbrev pub data_view : RoutedSubmessageView → ℕ → ℕ → DataMessageView
data_view routed sequence_number payload_offset = record {
  version = routed.version;
  vendor_id = routed.vendor_id;
  guid_prefix = routed.source_guid_prefix;
  destination_guid_prefix = routed.destination_guid_prefix;
  has_destination = routed.has_destination;
  source_timestamp_seconds = routed.source_timestamp.seconds;
  source_timestamp_fraction = routed.source_timestamp.fraction;
  has_source_timestamp = routed.has_source_timestamp;
  reader_id = entity_at routed.content 4;
  writer_id = entity_at routed.content 8;
  sequence_number = sequence_number;
  submessage_byte_order = routed.byte_order;
  serialized_payload = pointer_at routed.content payload_offset;
  payload_size = routed.content_size - payload_offset;
}

-- The parser once the payload's place is known. A std::int32_t below 0 has its highest bit set.
unfoldable pub parse_payload : RoutedSubmessageView → ℕ → Parsed
parse_payload routed payload_offset =
    let high = read_uint32 routed.content 12 routed.byte_order in
    let sequence_number =
      bit_or (high * 2 ^ 32 % 2 ^ 64) (read_uint32 routed.content 16 routed.byte_order) in
    if ltb routed.content_size payload_offset || ltb (routed.content_size - payload_offset) 4
    then Parsed.refused RtpsError.invalid_submessage
    else if leb (2 ^ 31) high
    then Parsed.refused RtpsError.invalid_sequence_number
    else if sequence_number == 0
    then Parsed.refused RtpsError.invalid_sequence_number
    else if not (
        supported_serialized_payload (pointer_at routed.content payload_offset)
          (routed.content_size - payload_offset))
    then Parsed.refused RtpsError.invalid_serialized_payload
    else Parsed.parsed (data_view routed sequence_number payload_offset)

unfoldable pub parse_routed : RoutedSubmessageView → Parsed
parse_routed routed =
    if not (bit_and routed.flags 0x04 != 0)
    then Parsed.refused RtpsError.invalid_submessage
    else if bit_and routed.flags (0x02 + 0x08 + 0x10) != 0
    then Parsed.refused RtpsError.unsupported_feature
    else if ltb routed.content_size (20 + 4)
    then Parsed.refused RtpsError.invalid_submessage
    else if read_uint16 routed.content 0 routed.byte_order != 0
    then Parsed.refused RtpsError.unsupported_feature
    else if ltb (read_uint16 routed.content 2 routed.byte_order) 16
    then Parsed.refused RtpsError.invalid_submessage
    else parse_payload routed (4 + read_uint16 routed.content 2 routed.byte_order)

abbrev pub parse_found : MessageRouteError × Option RoutedSubmessageView → Parsed
parse_found (error, Option.none) = Parsed.refused (route_error error)
parse_found (error, Option.some routed) = parse_routed routed

unfoldable pub parse_data_message : BytePointer → ℕ → Parsed
parse_data_message message message_size =
    parse_found (find_submessage message message_size submessage_id_data 0)
