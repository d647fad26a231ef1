-- ===== src/Rtps/Codec.antt =====
-- ReliabilityMessageBuilder of src/rtps/reliability_messages.cpp. Its calls return the answer and the
-- new builder. A std::int32_t is its bit pattern.
pub mod Parsing
pub mod Prefix
pub mod Written
pub mod Starts
pub mod HeartbeatTrip
pub mod Refused
pub mod BitmapTrip
pub mod AcknackBytes
pub mod AcknackTrip
mod Tests
use open_rtdds.Prelude.{
  ℕ, zero, suc, ◌+◌, ◌-◌, ◌*◌, ◌/◌, ◌%◌, ◌^◌, Bool, true, false, ◌&&◌, ◌||◌, not, Option, ltb, leb,
  ◌==◌, ◌!=◌, if◌then◌else◌, bit_and, bit_or, BytePointer, int64_max, add32,
}
use open_rtdds.Core.History.{is_null}
use open_rtdds.Rtps.Types.{ByteOrder, big_endian, little_endian}
use open_rtdds.Rtps.SequenceSet.{
  SequenceNumberSet, empty_set, reset, set_bit, word_count, word, valid_sequence_number,
  maximum_bits,
}
use open_rtdds.Rtps.Messages.{ReliabilityMessageHeader, Heartbeat, AckNack}
use open_rtdds.Serialization.Cdr.{byte_at, put_byte, copy_to}
use open_rtdds.Rtps.Wire.{
  supported_byte_order, supported_version, write_uint16, write_uint32, write_sequence_number,
  read_uint32, or_byte, entity_bytes, entity_at, write_rtps_header,
}
use open_rtdds.Rtps.Router.{
  MessageRouteError, RoutedSubmessageView, find_submessage, submessage_id_acknack,
  submessage_id_heartbeat,
}

pub data ReliabilityMessageError : Type 0 where
  none invalid_argument buffer_overflow truncated : ReliabilityMessageError
  invalid_protocol unsupported_version unsupported_submessage : ReliabilityMessageError
  unsupported_feature invalid_submessage invalid_sequence_number : ReliabilityMessageError
  bitmap_bound_exceeded : ReliabilityMessageError

abbrev pub is_good : ReliabilityMessageError → Bool
is_good ReliabilityMessageError.none = true
is_good _ = false

pub record ReliabilityMessageBuilder : Type 0 where
  pub buffer : BytePointer
  pub capacity : ℕ
  pub size : ℕ
  pub error : ReliabilityMessageError

unfoldable pub init : BytePointer → ℕ → ReliabilityMessageBuilder
init buffer capacity = record {
  buffer = buffer;
  capacity = capacity;
  size = 0;
  error =
      if is_null buffer && capacity != 0
      then ReliabilityMessageError.invalid_argument
      else ReliabilityMessageError.none;
}

abbrev pub fail :
    ReliabilityMessageBuilder → ReliabilityMessageError → Bool × ReliabilityMessageBuilder
fail b error = (false, record b { error = if is_good b.error then error else b.error; size = 0 })

unfoldable pub begin :
    ReliabilityMessageBuilder → ReliabilityMessageHeader → ℕ → Bool × ReliabilityMessageBuilder
begin b header message_size =
    if is_null b.buffer && b.capacity != 0
    then fail b ReliabilityMessageError.invalid_argument
    else if not (supported_version header.version)
    then fail b ReliabilityMessageError.unsupported_version
    else if not (supported_byte_order header.submessage_byte_order)
    then fail b ReliabilityMessageError.invalid_argument
    else if ltb b.capacity message_size
    then fail b ReliabilityMessageError.buffer_overflow
    else (
      true,
      record b {
        buffer = write_rtps_header b.buffer header.version header.vendor_id header.guid_prefix;
      },
    )

abbrev pub cleared : ReliabilityMessageBuilder → ReliabilityMessageBuilder
cleared b = record b { size = 0; error = ReliabilityMessageError.none }

abbrev pub is_little : ByteOrder → Bool
is_little little_endian = true
is_little big_endian = false

-- The submessage's identifier, its flags one after another, and its size.
unfoldable pub write_submessage_header : BytePointer → ℕ → Bool → Bool → ℕ → ByteOrder → BytePointer
write_submessage_header b id final liveliness content_size order =
    let started = put_byte (put_byte b 20 id) 21 0 in
    let ordered = if is_little order then or_byte started 21 0x01 else started in
    let finals = if final then or_byte ordered 21 0x02 else ordered in
    let lively = if liveliness then or_byte finals 21 0x04 else finals in
    write_uint16 lively 22 (content_size % 2 ^ 16) order

unfoldable pub write_heartbeat : BytePointer → Heartbeat → ByteOrder → BytePointer
write_heartbeat b config order =
    let headed =
      write_submessage_header b submessage_id_heartbeat config.final_flag config.liveliness_flag 28
        order in
    let addressed =
      copy_to (copy_to headed 24 (entity_bytes config.reader_id)) 28
        (entity_bytes config.writer_id) in
    let first = write_sequence_number addressed 32 config.first_sequence_number order in
    let last = write_sequence_number first 40 config.last_sequence_number order in
    write_uint32 last 48 config.count order

abbrev pub finish_heartbeat :
    Heartbeat → Bool × ReliabilityMessageBuilder → Bool × ReliabilityMessageBuilder
finish_heartbeat config (false, b) = (false, b)
finish_heartbeat config (true, b) = (
  true,
  record b {
    buffer = write_heartbeat b.buffer config config.header.submessage_byte_order;
    size = 52;
  },
)

abbrev pub valid_range : ℕ → ℕ → Bool
valid_range first last = valid_sequence_number first && leb last int64_max && leb (first - 1) last

unfoldable pub build_heartbeat :
    ReliabilityMessageBuilder → Heartbeat → Bool × ReliabilityMessageBuilder
build_heartbeat b config =
    if not (valid_range config.first_sequence_number config.last_sequence_number)
    then fail (cleared b) ReliabilityMessageError.invalid_sequence_number
    else finish_heartbeat config (begin (cleared b) config.header 52)

-- The loop over the words that are left; the index is the loop variable, and `44 + 4 * index` the
-- source's `offset`.
unfoldable pub write_words : ℕ → ℕ → SequenceNumberSet → ByteOrder → BytePointer → BytePointer
write_words zero index s order b = b
write_words (suc rounds) index s order b =
    write_words rounds (suc index) s order (write_uint32 b (44 + 4 * index) (word s index) order)

unfoldable pub write_acknack : BytePointer → AckNack → ByteOrder → BytePointer
write_acknack b config order =
    let words = word_count config.reader_state in
    let headed =
      write_submessage_header b submessage_id_acknack config.final_flag false (24 + words * 4)
        order in
    let addressed =
      copy_to (copy_to headed 24 (entity_bytes config.reader_id)) 28
        (entity_bytes config.writer_id) in
    let based = write_sequence_number addressed 32 config.reader_state.bitmap_base order in
    let counted = write_uint32 based 40 config.reader_state.num_bits order in
    write_uint32 (write_words words 0 config.reader_state order counted) (44 + 4 * words)
      config.count order

abbrev pub finish_acknack :
    AckNack → ℕ → Bool × ReliabilityMessageBuilder → Bool × ReliabilityMessageBuilder
finish_acknack config message_size (false, b) = (false, b)
finish_acknack config message_size (true, b) = (
  true,
  record b {
    buffer = write_acknack b.buffer config config.header.submessage_byte_order;
    size = message_size;
  },
)

unfoldable pub build_acknack :
    ReliabilityMessageBuilder → AckNack → Bool × ReliabilityMessageBuilder
build_acknack b config =
    if not (valid_sequence_number config.reader_state.bitmap_base)
    then fail (cleared b) ReliabilityMessageError.invalid_sequence_number
    else if ltb maximum_bits config.reader_state.num_bits
    then fail (cleared b) ReliabilityMessageError.bitmap_bound_exceeded
    else let message_size = 20 + 4 + (24 + word_count config.reader_state * 4) in
      finish_acknack config message_size (begin (cleared b) config.header message_size)
