-- ===== src/Rtps/Codec/HeartbeatTrip.antt =====
-- A HEARTBEAT that is built is parsed again.
use open_rtdds.Prelude.{
  ℕ, ◌-◌, ◌%◌, ◌^◌, ◌≤◌, ◌<◌, ◌≡◌, refl, ap, ap₂, ◌∙◌, arith, true, false, List, [], ◌∷◌, ◌++◌,
  length, Option, ◌!=◌, ltb, bit_and, BytePointer,
}
use open_rtdds.Core.History.{is_null}
use open_rtdds.Rtps.Types.{ByteOrder}
use open_rtdds.Rtps.Messages.{Heartbeat}
use open_rtdds.Rtps.Wire.{pointer_at, supported_version, entity_bytes, read_uint32}
use open_rtdds.Rtps.Wire.Holds.{
  Holds-pointer_at, uint16_bytes, uint32_bytes, read_uint32_lem, entity_at_lem,
}
use open_rtdds.Rtps.Wire.Begins.{Begins, Begins-split, Begins-write_uint32}
use open_rtdds.Rtps.Router.{submessage_id_heartbeat}
use open_rtdds.Rtps.Codec.{
  ReliabilityMessageBuilder, build_heartbeat, cleared, write_heartbeat, valid_range,
}
use open_rtdds.Rtps.Codec.Parsing.{
  Parsed, heartbeat_from, parse_heartbeat_message, read_sequence_number,
}
use open_rtdds.Rtps.Codec.Written.{
  rtps_header, Begins-write_rtps_header, flags_of, Begins-write_submessage_header, sequence_bytes,
  Begins-write_sequence_number, Begins-entities,
}
use open_rtdds.Rtps.Codec.Prefix.{read_sequence_number_lem}
use open_rtdds.Rtps.Codec.Starts.{
  flags_of-Flags, Begins-Starts, parse_prefix-Starts, HasRoom, begin-HasRoom, written_pointed,
}

-- The bytes of a whole HEARTBEAT message, after the identifiers.
Begins-write_heartbeat :
    (n : ℕ) (b : BytePointer) (ps : List ℕ) (config : Heartbeat) (order : ByteOrder)
    → Begins n b 20 ps
    → 52 ≤ n
    → Begins n (write_heartbeat b config order) 52 (
        ((((((((ps ++ submessage_id_heartbeat ∷ [])
                      ++ flags_of order config.final_flag config.liveliness_flag ∷ [])
                    ++ uint16_bytes (28 % 2 ^ 16) order)
                  ++ entity_bytes config.reader_id)
                ++ entity_bytes config.writer_id)
              ++ sequence_bytes config.first_sequence_number order)
            ++ sequence_bytes config.last_sequence_number order)
          ++ uint32_bytes config.count order))
unfolding write_heartbeat
Begins-write_heartbeat n b ps config order v room =
    let h =
      Begins-write_submessage_header n b ps submessage_id_heartbeat config.final_flag
        config.liveliness_flag 28 order v (omega arith) in
    let e = Begins-entities n _ 24 _ config.reader_id config.writer_id h (omega arith) in
    let f =
      Begins-write_sequence_number n _ 32 _ config.first_sequence_number order e (omega arith) in
    let l =
      Begins-write_sequence_number n _ 40 _ config.last_sequence_number order f (omega arith) in
    Begins-write_uint32 n _ 48 _ config.count order l room

-- What a config must be for its HEARTBEAT to be built.
pub record Buildable (config : Heartbeat) : Type 0 where
  pub prefix_size : length config.header.guid_prefix ≡ 12
  pub count_small : config.count < 2 ^ 32
  pub supported : supported_version config.header.version ≡ true
  pub range : valid_range config.first_sequence_number config.last_sequence_number ≡ true

-- What is read from a memory that holds the message.
parsed_heartbeat :
    (n : ℕ) (m : BytePointer) (config : Heartbeat)
    → Buildable config
    → is_null m ≡ false
    → Begins n m 52 (
        ((((((((rtps_header config.header.version config.header.vendor_id config.header.guid_prefix
                        ++ submessage_id_heartbeat ∷ [])
                      ++ flags_of config.header.submessage_byte_order config.final_flag
                          config.liveliness_flag
                        ∷ [])
                    ++ uint16_bytes (28 % 2 ^ 16) config.header.submessage_byte_order)
                  ++ entity_bytes config.reader_id)
                ++ entity_bytes config.writer_id)
              ++ sequence_bytes config.first_sequence_number config.header.submessage_byte_order)
            ++ sequence_bytes config.last_sequence_number config.header.submessage_byte_order)
          ++ uint32_bytes config.count config.header.submessage_byte_order))
    → parse_heartbeat_message m 52 ≡ Parsed.parsed config
unfolding parse_heartbeat_message
parsed_heartbeat n m config v pointed begins =
    let order = config.header.submessage_byte_order in
    let flags = flags_of order config.final_flag config.liveliness_flag in
    let (lasts, count_at) = Begins-split n m 48 4 _ (uint32_bytes config.count order) begins refl in
    let (firsts, last_at) =
      Begins-split n m 40 8 _ (sequence_bytes config.last_sequence_number order) lasts refl in
    let (entities, first_at) =
      Begins-split n m 32 8 _ (sequence_bytes config.first_sequence_number order) firsts refl in
    let starts =
      Begins-Starts n m config.header submessage_id_heartbeat flags 28 config.reader_id
        config.writer_id v.prefix_size entities in
    let f = flags_of-Flags order config.final_flag config.liveliness_flag in
    let c = pointer_at m 24 in
    let first : read_sequence_number c 8 order false ≡ Option.some config.first_sequence_number =
      read_sequence_number_lem c 8 config.first_sequence_number order false
        (ground (arith, v.range)) (ground (arith, v.range))
        (Holds-pointer_at m 24 8 (sequence_bytes config.first_sequence_number order) first_at) in
    let last : read_sequence_number c 16 order true ≡ Option.some config.last_sequence_number =
      read_sequence_number_lem c 16 config.last_sequence_number order true (ground (arith, v.range))
        refl
        (Holds-pointer_at m 24 16 (sequence_bytes config.last_sequence_number order) last_at) in
    let in_range : ltb config.last_sequence_number (config.first_sequence_number - 1) ≡ false =
      ground (arith, v.range) in
    ap heartbeat_from (
      parse_prefix-Starts starts (refl, refl, refl) f.order_eq v.supported pointed (omega arith)
        (omega arith))
    ∙ rw (f.no_group, f.allowed, first, last, in_range)
        (ap Parsed.parsed (
          ap₂
            (λ r w. record {
              header = config.header;
              reader_id = r;
              writer_id = w;
              first_sequence_number = config.first_sequence_number;
              last_sequence_number = config.last_sequence_number;
              count = read_uint32 c 24 order;
              final_flag = bit_and flags 0x02 != 0;
              liveliness_flag = bit_and flags 0x04 != 0;
            })
            (entity_at_lem c 0 config.reader_id
              (Holds-pointer_at m 24 0 (entity_bytes config.reader_id) starts.reader_at))
            (entity_at_lem c 4 config.writer_id
              (Holds-pointer_at m 24 4 (entity_bytes config.writer_id) starts.writer_at))
          ∙ rw (
            read_uint32_lem c 24 config.count order v.count_small
                (Holds-pointer_at m 24 24 (uint32_bytes config.count order) count_at),
            f.final_eq,
            f.liveliness_eq,
          )))

-- With a buffer of 52 bytes or more, a supported version and a valid range of sequence numbers, a
-- HEARTBEAT is built, and parsing what was built, in either byte order, gives the HEARTBEAT again.
pub parse_heartbeat-build_heartbeat :
    (b : ReliabilityMessageBuilder) (config : Heartbeat)
    → HasRoom b 52
    → Buildable config
    → ((build_heartbeat b config).0 ≡ true)
      × (parse_heartbeat_message
            (build_heartbeat b config).1.buffer
            (build_heartbeat b config).1.size
          ≡ Parsed.parsed config)
unfolding build_heartbeat
parse_heartbeat-build_heartbeat b config room v =
    let header = config.header in
    let e = begin-HasRoom (cleared b) header 52 room (omega arith) v.supported in
    let w =
      Begins-write_heartbeat b.capacity _ _ config header.submessage_byte_order
        (Begins-write_rtps_header b.capacity b.buffer header.version header.vendor_id
          header.guid_prefix room.0 v.prefix_size (omega arith))
        room.1 in
    rw (v.range, e)
      (
        refl,
        parsed_heartbeat b.capacity _ config v (written_pointed b.capacity _ 52 _ w (omega arith))
            w,
      )

pub built_size :
    (b : ReliabilityMessageBuilder) (config : Heartbeat)
    → HasRoom b 52
    → Buildable config
    → (build_heartbeat b config).1.size ≡ 52
unfolding build_heartbeat
built_size b config room v =
    rw (v.range, begin-HasRoom (cleared b) config.header 52 room (omega arith) v.supported)
