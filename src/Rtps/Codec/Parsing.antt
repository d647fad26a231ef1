-- ===== src/Rtps/Codec/Parsing.antt =====
-- The parsers of HEARTBEAT and ACKNACK of src/rtps/reliability_messages.cpp. A parser returns the error
-- and the view that it writes, if it writes one.
use open_rtdds.Prelude.{
  ℕ, zero, suc, ◌+◌, ◌-◌, ◌*◌, ◌/◌, ◌%◌, ◌^◌, Bool, true, false, ◌&&◌, ◌||◌, not, Option, ltb, leb,
  ◌==◌, ◌!=◌, if◌then◌else◌, bit_and, bit_or, BytePointer, int64_max, add32,
}
use open_rtdds.Core.History.{is_null}
use open_rtdds.Rtps.Types.{ByteOrder}
use open_rtdds.Rtps.SequenceSet.{SequenceNumberSet, empty_set, reset, set_bit, maximum_bits}
use open_rtdds.Rtps.Messages.{ReliabilityMessageHeader, Heartbeat, AckNack}
use open_rtdds.Rtps.Wire.{read_uint32, entity_at}
use open_rtdds.Rtps.Router.{
  MessageRouteError, RoutedSubmessageView, find_submessage, submessage_id_acknack,
  submessage_id_heartbeat,
}
use open_rtdds.Rtps.Codec.{ReliabilityMessageError}

abbrev pub route_error : MessageRouteError → ReliabilityMessageError
route_error MessageRouteError.none = ReliabilityMessageError.none
route_error MessageRouteError.invalid_argument = ReliabilityMessageError.invalid_argument
route_error MessageRouteError.truncated = ReliabilityMessageError.truncated
route_error MessageRouteError.invalid_protocol = ReliabilityMessageError.invalid_protocol
route_error MessageRouteError.unsupported_version = ReliabilityMessageError.unsupported_version
route_error MessageRouteError.submessage_not_found = ReliabilityMessageError.unsupported_submessage
route_error MessageRouteError.malformed_submessage = ReliabilityMessageError.invalid_submessage
route_error MessageRouteError.invalid_info_submessage = ReliabilityMessageError.invalid_submessage

pub record ParsedPrefix : Type 0 where
  pub header : ReliabilityMessageHeader
  pub byte_order : ByteOrder
  pub flags : ℕ
  pub content_size : ℕ
  pub content : BytePointer

-- The prefix, or the error.
pub data Parsed {ℓ} (A : Type ℓ) : Type ℓ where
  parsed : A → Parsed A
  refused : ReliabilityMessageError → Parsed A

abbrev pub prefix_of : RoutedSubmessageView → ParsedPrefix
prefix_of routed = record {
  header = record {
    version = routed.version;
    vendor_id = routed.vendor_id;
    guid_prefix = routed.source_guid_prefix;
    submessage_byte_order = routed.byte_order;
  };
  byte_order = routed.byte_order;
  flags = routed.flags;
  content_size = routed.content_size;
  content = routed.content;
}

abbrev pub prefix_from : MessageRouteError × Option RoutedSubmessageView → Parsed ParsedPrefix
prefix_from (error, Option.none) = Parsed.refused (route_error error)
prefix_from (error, Option.some routed) = Parsed.parsed (prefix_of routed)

unfoldable pub parse_prefix : BytePointer → ℕ → ℕ → Parsed ParsedPrefix
parse_prefix message message_size expected_submessage_id =
    if is_null message && message_size != 0
    then Parsed.refused ReliabilityMessageError.invalid_argument
    else prefix_from (find_submessage message message_size expected_submessage_id 0)

-- `none` is the answer `false`.
unfoldable pub read_sequence_number : BytePointer → ℕ → ByteOrder → Bool → Option ℕ
read_sequence_number source index order allow_zero =
    let high = read_uint32 source index order in
    let candidate = bit_or (high * 2 ^ 32 % 2 ^ 64) (read_uint32 source (index + 4) order) in
    if leb (2 ^ 31) high
    then Option.none
    else if (not allow_zero && candidate == 0) || ltb int64_max candidate
    then Option.none
    else Option.some candidate

abbrev pub heartbeat_view : ParsedPrefix → ℕ → ℕ → Heartbeat
heartbeat_view p first last = record {
  header = p.header;
  reader_id = entity_at p.content 0;
  writer_id = entity_at p.content 4;
  first_sequence_number = first;
  last_sequence_number = last;
  count = read_uint32 p.content 24 p.byte_order;
  final_flag = bit_and p.flags 0x02 != 0;
  liveliness_flag = bit_and p.flags 0x04 != 0;
}

abbrev pub heartbeat_range : ParsedPrefix → Option ℕ → Option ℕ → Parsed Heartbeat
heartbeat_range p Option.none last = Parsed.refused ReliabilityMessageError.invalid_sequence_number
heartbeat_range p (Option.some first) Option.none =
    Parsed.refused ReliabilityMessageError.invalid_sequence_number
heartbeat_range p (Option.some first) (Option.some last) =
    if ltb last (first - 1)
    then Parsed.refused ReliabilityMessageError.invalid_sequence_number
    else Parsed.parsed (heartbeat_view p first last)

-- `bit_and` with the complement of the allowed flags.
abbrev pub heartbeat_from : Parsed ParsedPrefix → Parsed Heartbeat
heartbeat_from (Parsed.refused error) = Parsed.refused error
heartbeat_from (Parsed.parsed p) =
    if bit_and p.flags 0x08 != 0
    then Parsed.refused ReliabilityMessageError.unsupported_feature
    else if bit_and p.flags (0xFF - 0x07) != 0
    then Parsed.refused ReliabilityMessageError.unsupported_feature
    else if p.content_size != 28
    then Parsed.refused ReliabilityMessageError.invalid_submessage
    else heartbeat_range p (read_sequence_number p.content 8 p.byte_order false)
        (read_sequence_number p.content 16 p.byte_order true)

unfoldable pub parse_heartbeat_message : BytePointer → ℕ → Parsed Heartbeat
parse_heartbeat_message message message_size =
    heartbeat_from (parse_prefix message message_size submessage_id_heartbeat)

-- The inner loop over the bits of a word, over the rounds that are left.
unfoldable pub read_bits : ℕ → ℕ → ℕ → ℕ → SequenceNumberSet → SequenceNumberSet
read_bits zero bit_index word_index w s = s
read_bits (suc rounds) bit_index word_index w s = read_bits rounds (suc bit_index) word_index w (
    if ltb (word_index * 32 + bit_index) s.num_bits && bit_and w (2 ^ (31 - bit_index)) != 0
    then (set_bit s (word_index * 32 + bit_index)).1
    else s)

-- The outer loop; `20 + 4 * word_index` is the source's `offset`.
unfoldable pub read_words : ℕ → ℕ → BytePointer → ByteOrder → SequenceNumberSet → SequenceNumberSet
read_words zero word_index content order s = s
read_words (suc rounds) word_index content order s =
    read_words rounds (suc word_index) content order
      (read_bits 32 0 word_index (read_uint32 content (20 + 4 * word_index) order) s)

abbrev pub acknack_view : ParsedPrefix → ℕ → SequenceNumberSet → AckNack
acknack_view p words s = record {
  header = p.header;
  reader_id = entity_at p.content 0;
  writer_id = entity_at p.content 4;
  reader_state = read_words words 0 p.content p.byte_order s;
  count = read_uint32 p.content (20 + 4 * words) p.byte_order;
  final_flag = bit_and p.flags 0x02 != 0;
}

abbrev pub acknack_reset : ParsedPrefix → ℕ → Bool × SequenceNumberSet → Parsed AckNack
acknack_reset p words (false, s) = Parsed.refused ReliabilityMessageError.invalid_sequence_number
acknack_reset p words (true, s) = Parsed.parsed (acknack_view p words s)

abbrev pub acknack_sized : ParsedPrefix → ℕ → ℕ → Parsed AckNack
acknack_sized p bitmap_base num_bits =
    let words = add32 num_bits 31 / 32 in
    if ltb maximum_bits num_bits
    then Parsed.refused ReliabilityMessageError.bitmap_bound_exceeded
    else if p.content_size != 24 + words * 4
    then Parsed.refused ReliabilityMessageError.invalid_submessage
    else acknack_reset p words (reset empty_set bitmap_base num_bits)

abbrev pub acknack_based : ParsedPrefix → Option ℕ → Parsed AckNack
acknack_based p Option.none = Parsed.refused ReliabilityMessageError.invalid_sequence_number
acknack_based p (Option.some bitmap_base) =
    acknack_sized p bitmap_base (read_uint32 p.content 16 p.byte_order)

abbrev pub acknack_from : Parsed ParsedPrefix → Parsed AckNack
acknack_from (Parsed.refused error) = Parsed.refused error
acknack_from (Parsed.parsed p) =
    if bit_and p.flags (0xFF - 0x03) != 0
    then Parsed.refused ReliabilityMessageError.unsupported_feature
    else if ltb p.content_size 24
    then Parsed.refused ReliabilityMessageError.invalid_submessage
    else acknack_based p (read_sequence_number p.content 8 p.byte_order false)

unfoldable pub parse_acknack_message : BytePointer → ℕ → Parsed AckNack
parse_acknack_message message message_size =
    acknack_from (parse_prefix message message_size submessage_id_acknack)
