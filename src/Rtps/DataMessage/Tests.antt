-- ===== src/Rtps/DataMessage/Tests.antt =====
-- A DATA message that is built and parsed.
use open_rtdds.Prelude.{
  ℕ, ◌≡◌, ◌<◌, refl, arith, true, [], ◌∷◌, ◌++◌, Option, BytePointer, replicate,
}
use open_rtdds.Rtps.Types.{default_version, ByteOrder}
use open_rtdds.Serialization.Cdr.{byte_at}
use open_rtdds.Rtps.Testing.{reader_id, writer_id}
use open_rtdds.Rtps.DataMessage.{
  DataMessageBuilder, DataMessageConfig, Parsed, RtpsError, build, parse_data_message, parse_routed,
  parse_payload, DataMessageView,
}
use open_rtdds.Rtps.DataMessage.Routed.{plain_view}
use open_rtdds.Serialization.Integral.{load_integral, load_loop}
use open_rtdds.Rtps.Wire.{pointer_at, read_uint16, read_uint32}
use open_rtdds.Rtps.Router.{find_submessage, walk, step, step_with, visit, apply_info}
use open_rtdds.Rtps.DataMessage.Bounds.{Within, parse_data_message-Within}
use open_rtdds.Rtps.DataMessage.RoundTrip.{parse_data-build}

abbrev builder : DataMessageBuilder
builder = record {
  buffer = Option.some (replicate 60 0);
  capacity = 60;
  size = 0;
  error = RtpsError.none;
}

abbrev config : DataMessageConfig
config = record {
  version = default_version;
  vendor_id = record { v0 = 1; v1 = 2 };
  guid_prefix = replicate 12 1;
  reader_id = reader_id;
  writer_id = writer_id;
  sequence_number = 5;
  submessage_byte_order = ByteOrder.big_endian;
}

abbrev payload : BytePointer
payload = Option.some (0 ∷ 1 ∷ 0 ∷ 0 ∷ 42 ∷ [])

parse_data-build_example :
    ((build builder config payload 5).0 ≡ true)
    × ((p : BytePointer) × (parse_data_message
            (build builder config payload 5).1.buffer
            (build builder config payload 5).1.size
          ≡ Parsed.parsed (plain_view config p 5))
        × ((i : ℕ) → i < 5 → byte_at p i ≡ byte_at payload i))
parse_data-build_example =
    parse_data-build builder config payload 5 refl
      (record {
        prefix_size = refl;
        supported = refl;
        positive = omega arith;
        in_range = omega arith;
        payload_supported = refl;
        payload_length = refl;
        datagram = omega arith;
      })
      (omega arith)

-- The message that a builder made, with a payload of five bytes.
abbrev message : BytePointer
message = Option.some (
    b'R'
    ∷ b'T'
    ∷ b'P'
    ∷ b'S'
    ∷ 2
    ∷ 5
    ∷ 1
    ∷ 2
    ∷ (replicate 12 1
        ++ (0x15 ∷ 4 ∷ 0 ∷ 25 ∷ 0 ∷ 0 ∷ 0 ∷ 16 ∷ 0 ∷ 0 ∷ 1 ∷ 4 ∷ 0 ∷ 0 ∷ 1 ∷ 3 ∷ [])
        ++ (0 ∷ 0 ∷ 0 ∷ 0 ∷ 0 ∷ 0 ∷ 0 ∷ 5 ∷ 0 ∷ 1 ∷ 0 ∷ 0 ∷ 42 ∷ [])))

abbrev message_view : DataMessageView
message_view = plain_view config (pointer_at (pointer_at message 24) 20) 5

message_parsed : parse_data_message message 49 ≡ Parsed.parsed message_view
unfolding parse_data_message parse_routed parse_payload find_submessage walk step step_with visit
    apply_info read_uint16 read_uint32 load_integral load_loop
message_parsed = refl

parse_data_message-Within_example : Within message 49 message_view
parse_data_message-Within_example = parse_data_message-Within message 49 message_view message_parsed
