-- ===== src/Rtps/Codec/Starts.antt =====
-- What both builders write first, and what `parse_prefix` makes of it.
use open_rtdds.Prelude.{
  ℕ, ◌+◌, ◌-◌, ◌%◌, ◌^◌, ◌≤◌, ◌<◌, ◌≡◌, refl, ap, ◌∙◌, arith, Bool, true, false, List, [], ◌∷◌,
  ◌++◌, length, Option, ◌!=◌, ltb, bit_and, BytePointer,
}
use open_rtdds.Core.History.{is_null}
use open_rtdds.Rtps.Types.{ByteOrder, big_endian, little_endian, EntityId}
use open_rtdds.Rtps.Messages.{ReliabilityMessageHeader}
use open_rtdds.Serialization.Cdr.{byte_at}
use open_rtdds.Serialization.Integral.{Sized}
use open_rtdds.Rtps.Wire.{
  pointer_at, supported_version, supported_byte_order, entity_bytes, read_uint16, write_rtps_header,
}
use open_rtdds.Rtps.Wire.Holds.{Holds, Holds-head, uint16_bytes, read_uint16_lem}
use open_rtdds.Rtps.Wire.Begins.{Begins, Begins-split}
use open_rtdds.Rtps.Router.{order_of, routed_view}
use open_rtdds.Rtps.Codec.{ReliabilityMessageBuilder, begin}
use open_rtdds.Rtps.Codec.Parsing.{Parsed, parse_prefix, prefix_of}
use open_rtdds.Rtps.Codec.Written.{rtps_header, flags_of}
use open_rtdds.Rtps.Codec.Prefix.{
  start_context-rtps_header, HasHeader-rtps_header, IsPlain, find_submessage-single,
}

-- What the flags byte says.
pub record Flags (order : ByteOrder) (final liveliness : Bool) (flags : ℕ) : Type 0 where
  pub order_eq : order_of flags ≡ order
  pub final_eq : (bit_and flags 0x02 != 0) ≡ final
  pub liveliness_eq : (bit_and flags 0x04 != 0) ≡ liveliness
  pub no_group : (bit_and flags 0x08 != 0) ≡ false
  pub allowed : (bit_and flags (0xFF - 0x07) != 0) ≡ false
  pub only_two : (bit_and flags (0xFF - 0x03) != 0) ≡ liveliness

pub flags_of-Flags :
    (order : ByteOrder) (final liveliness : Bool)
    → Flags order final liveliness (flags_of order final liveliness)
flags_of-Flags little_endian true true = record {
  order_eq = refl;
  final_eq = refl;
  liveliness_eq = refl;
  no_group = refl;
  allowed = refl;
  only_two = refl;
}
flags_of-Flags little_endian true false = record {
  order_eq = refl;
  final_eq = refl;
  liveliness_eq = refl;
  no_group = refl;
  allowed = refl;
  only_two = refl;
}
flags_of-Flags little_endian false true = record {
  order_eq = refl;
  final_eq = refl;
  liveliness_eq = refl;
  no_group = refl;
  allowed = refl;
  only_two = refl;
}
flags_of-Flags little_endian false false = record {
  order_eq = refl;
  final_eq = refl;
  liveliness_eq = refl;
  no_group = refl;
  allowed = refl;
  only_two = refl;
}
flags_of-Flags big_endian true true = record {
  order_eq = refl;
  final_eq = refl;
  liveliness_eq = refl;
  no_group = refl;
  allowed = refl;
  only_two = refl;
}
flags_of-Flags big_endian true false = record {
  order_eq = refl;
  final_eq = refl;
  liveliness_eq = refl;
  no_group = refl;
  allowed = refl;
  only_two = refl;
}
flags_of-Flags big_endian false true = record {
  order_eq = refl;
  final_eq = refl;
  liveliness_eq = refl;
  no_group = refl;
  allowed = refl;
  only_two = refl;
}
flags_of-Flags big_endian false false = record {
  order_eq = refl;
  final_eq = refl;
  liveliness_eq = refl;
  no_group = refl;
  allowed = refl;
  only_two = refl;
}

-- The start of a message that both builders write: the header, the submessage's header, and the
-- identifiers of the reader and of the writer.
pub record Starts (n : ℕ) (m : BytePointer) (header : ReliabilityMessageHeader) (id flags size : ℕ)
    (reader writer : EntityId) : Type 0 where
  pub head : Begins n m 20 (rtps_header header.version header.vendor_id header.guid_prefix)
  pub id_at : byte_at m 20 ≡ id
  pub flags_at : byte_at m 21 ≡ flags
  pub size_at : Holds m 22 (uint16_bytes (size % 2 ^ 16) header.submessage_byte_order)
  pub reader_at : Holds m 24 (entity_bytes reader)
  pub writer_at : Holds m 28 (entity_bytes writer)

pub Begins-Starts :
    (n : ℕ) (m : BytePointer) (header : ReliabilityMessageHeader) (id flags size : ℕ)
    (reader writer : EntityId)
    → length header.guid_prefix ≡ 12
    → Begins n m 32 (
        (((((rtps_header header.version header.vendor_id header.guid_prefix) ++ id ∷ [])
              ++ flags ∷ [])
            ++ uint16_bytes (size % 2 ^ 16) header.submessage_byte_order)
          ++ entity_bytes reader)
        ++ entity_bytes writer)
    → Starts n m header id flags size reader writer
Begins-Starts n m header id flags size reader writer twelve v =
    let ps = rtps_header header.version header.vendor_id header.guid_prefix in
    let w = Begins-split n m 28 4 _ (entity_bytes writer) v refl in
    let r = Begins-split n m 24 4 _ (entity_bytes reader) w.0 refl in
    let s =
      Begins-split n m 22 2 ((ps ++ id ∷ []) ++ flags ∷ [])
        (uint16_bytes (size % 2 ^ 16) header.submessage_byte_order) r.0
        (length-uint16 header.submessage_byte_order (size % 2 ^ 16)) in
    let f = Begins-split n m 21 1 (ps ++ id ∷ []) (flags ∷ []) s.0 refl in
    let i = Begins-split n m 20 1 ps (id ∷ []) f.0 refl in
    record {
      head = i.0;
      id_at = Holds-head m 20 id [] i.1;
      flags_at = Holds-head m 21 flags [] f.1;
      size_at = s.1;
      reader_at = r.1;
      writer_at = w.1;
    }
  where
    length-uint16 : (order : ByteOrder) (value : ℕ) → length (uint16_bytes value order) ≡ 2
    length-uint16 little_endian value = refl
    length-uint16 big_endian value = refl

-- What `parse_prefix` makes of such a message.
pub parse_prefix-Starts :
    {n : ℕ} {m : BytePointer} {header : ReliabilityMessageHeader} {id flags size : ℕ}
    {reader writer : EntityId}
    → Starts n m header id flags size reader writer
    → IsPlain id
    → order_of flags ≡ header.submessage_byte_order
    → supported_version header.version ≡ true
    → is_null m ≡ false
    → 0 < size
    → size < 2 ^ 16
    → parse_prefix m (24 + size) id
      ≡ Parsed.parsed (record {
        header = header;
        byte_order = header.submessage_byte_order;
        flags = flags;
        content_size = size;
        content = pointer_at m 24;
      })
unfolding parse_prefix
parse_prefix-Starts {n} {m} {header} {id} {flags} {size} s plain order good pointed nonzero small =
    let same : size % 2 ^ 16 ≡ size = omega arith in
    let declared : read_uint16 m 22 (order_of flags) ≡ size =
      ap (read_uint16 m 22) order
      ∙ read_uint16_lem m 22 (size % 2 ^ 16) header.submessage_byte_order (omega arith) s.size_at
      ∙ same in
    let routed =
      find_submessage-single m id flags size
        (HasHeader-rtps_header n m header.version header.vendor_id header.guid_prefix (24 + size)
          s.head good (omega arith) pointed)
        plain s.id_at s.flags_at declared (omega arith) in
    rw (pointed, routed, order)
      (ap
        (λ c. Parsed.parsed (
          prefix_of
            (routed_view c id flags header.submessage_byte_order (pointer_at m 24) size 20)))
        (start_context-rtps_header n m header.version header.vendor_id header.guid_prefix s.head))

-- A builder over memory of its capacity.
abbrev pub HasRoom : ReliabilityMessageBuilder → ℕ → Type 0
HasRoom b size = Sized b.capacity b.buffer × (size ≤ b.capacity)

pointed_of : (n : ℕ) (b : BytePointer) → Sized n b → 0 < n → is_null b ≡ false
pointed_of n Option.none h lt = absurd (omega arith)
pointed_of n (Option.some bytes) h lt = refl

pub written_pointed :
    (n : ℕ) (m : BytePointer) (k : ℕ) (ps : List ℕ) → Begins n m k ps → 0 < n → is_null m ≡ false
written_pointed n m k ps v lt = pointed_of n m v.sized lt

-- `begin` with room and a supported version.
pub begin-HasRoom :
    (b : ReliabilityMessageBuilder) (header : ReliabilityMessageHeader) (size : ℕ)
    → HasRoom b size
    → 0 < size
    → supported_version header.version ≡ true
    → begin b header size ≡ (
      true,
      record b {
        buffer = write_rtps_header b.buffer header.version header.vendor_id header.guid_prefix;
      },
    )
unfolding begin
begin-HasRoom b header size room positive good =
    let pointed = pointed_of b.capacity b.buffer room.0 (omega arith) in
    let fits : ltb b.capacity size ≡ false = ground arith in
    rw (pointed, good, order header.submessage_byte_order, fits)
  where
    order : (o : ByteOrder) → supported_byte_order o ≡ true
    order little_endian = refl
    order big_endian = refl
