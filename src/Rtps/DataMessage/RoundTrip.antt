-- ===== src/Rtps/DataMessage/RoundTrip.antt =====
-- A DATA message that is built is parsed again.
use open_rtdds.Prelude.{
  ℕ, ◌+◌, ◌-◌, ◌%◌, ◌^◌, ◌≤◌, ◌<◌, ◌≡◌, refl, arith, true, false, ◌||◌, [], ◌∷◌, ◌++◌, length,
  length-append, Option, ◌==◌, ltb, BytePointer, int64_max, size_max,
}
use open_rtdds.Core.History.{is_null, pointed}
use open_rtdds.Rtps.Types.{ByteOrder, big_endian, little_endian}
use open_rtdds.Serialization.Cdr.{byte_at}
use open_rtdds.Serialization.Integral.{Sized}
use open_rtdds.Rtps.Wire.{pointer_at, supported_byte_order}
use open_rtdds.Rtps.Wire.Begins.{
  Begins, Begins-put_byte, Begins-or_byte, Begins-write_uint16, Begins-copy_to,
}
use open_rtdds.Rtps.Router.{submessage_id_data}
use open_rtdds.Rtps.Codec.Written.{
  rtps_header, Begins-write_rtps_header, Begins-write_sequence_number, Begins-entities,
}
use open_rtdds.Rtps.Codec.Starts.{written_pointed}
use open_rtdds.Rtps.DataMessage.{
  DataMessageBuilder, DataMessageConfig, Parsed, RtpsError, build, is_little, write_data_message,
  parse_data_message,
}
use open_rtdds.Rtps.DataMessage.Routed.{
  Buildable, data_bytes, data_flags, plain_view, parsed_data_message,
}

Begins-write_data_message :
    (size : ℕ) (b : BytePointer) (config : DataMessageConfig) (payload : BytePointer) (n : ℕ)
    → Sized size b
    → Buildable config payload n
    → 44 + n ≤ size
    → Begins size
        (write_data_message b config payload n config.submessage_byte_order)
        (44 + n)
        (data_bytes config payload n)
unfolding write_data_message
Begins-write_data_message size b config payload n sized v room =
    let order = config.submessage_byte_order in
    let ps = rtps_header config.version config.vendor_id config.guid_prefix in
    let h =
      Begins-write_rtps_header size b config.version config.vendor_id config.guid_prefix sized
        v.prefix_size (omega arith) in
    let i = Begins-put_byte size _ 20 ps submessage_id_data h (omega arith) in
    let qs = ps ++ submessage_id_data ∷ [] in
    let at : length qs ≡ 21 = omega (arith, length-append ps (submessage_id_data ∷ []), h.size) in
    let d = Begins-put_byte size _ 21 qs 0x04 i (omega arith) in
    let f = Begins-or_byte size _ 21 qs 0x04 0x01 (is_little order) d at (omega arith) in
    let s =
      Begins-write_uint16 size _ 22 (qs ++ data_flags order ∷ []) ((20 + n) % 2 ^ 16) order f
        (omega arith) in
    let e = Begins-write_uint16 size _ 24 _ 0 order s (omega arith) in
    let q = Begins-write_uint16 size _ 26 _ 16 order e (omega arith) in
    let a = Begins-entities size _ 28 _ config.reader_id config.writer_id q (omega arith) in
    let k = Begins-write_sequence_number size _ 36 _ config.sequence_number order a (omega arith) in
    Begins-copy_to size _ 44 n _ (pointed payload n) k v.payload_length room

pointed_of_size : (n : ℕ) (b : BytePointer) → Sized n b → 0 < n → is_null b ≡ false
pointed_of_size n Option.none h lt = absurd (omega arith)
pointed_of_size n (Option.some bytes) h lt = refl

order_supported : (o : ByteOrder) → supported_byte_order o ≡ true
order_supported little_endian = refl
order_supported big_endian = refl

pub build_lem :
    (b : DataMessageBuilder) (config : DataMessageConfig) (payload : BytePointer) (n : ℕ)
    → Sized b.capacity b.buffer
    → Buildable config payload n
    → 44 + n ≤ b.capacity
    → build b config payload n ≡ (
      true,
      record {
        buffer = write_data_message b.buffer config payload n config.submessage_byte_order;
        capacity = b.capacity;
        size = 44 + n;
        error = RtpsError.none;
      },
    )
unfolding build
build_lem b config payload n sized v room =
    let there = pointed_of_size b.capacity b.buffer sized (omega arith) in
    let number : (config.sequence_number == 0 || ltb int64_max config.sequence_number) ≡ false =
      ground (arith, v.positive, v.in_range) in
    let sum : ltb (size_max - 44) n ≡ false = ground (arith, v.datagram) in
    let datagram : ltb 65507 (44 + n) ≡ false = ground (arith, v.datagram) in
    let fits : ltb b.capacity (44 + n) ≡ false = ground arith in
    let content : ltb 65535 (20 + n) ≡ false = ground (arith, v.datagram) in
    rw (
      there,
      v.supported,
      order_supported config.submessage_byte_order,
      number,
      v.payload_supported,
      sum,
      datagram,
      fits,
      content,
    )

-- With a buffer of enough bytes, a supported version, a valid sequence number, and a payload with a
-- supported encapsulation that fits a UDP datagram, a DATA message is built, and parsing what was
-- built, in either byte order, gives the fields of the config, no INFO context, and a payload of the
-- same size and the same bytes.
pub parse_data-build :
    (b : DataMessageBuilder) (config : DataMessageConfig) (payload : BytePointer) (n : ℕ)
    → Sized b.capacity b.buffer
    → Buildable config payload n
    → 44 + n ≤ b.capacity
    → ((build b config payload n).0 ≡ true)
      × ((p : BytePointer) × (parse_data_message
              (build b config payload n).1.buffer
              (build b config payload n).1.size
            ≡ Parsed.parsed (plain_view config p n))
          × ((i : ℕ) → i < n → byte_at p i ≡ byte_at payload i))
parse_data-build b config payload n sized v room =
    let m = write_data_message b.buffer config payload n config.submessage_byte_order in
    let w = Begins-write_data_message b.capacity b.buffer config payload n sized v room in
    let (parses, same) =
      parsed_data_message b.capacity m config payload n v
        (written_pointed b.capacity m (44 + n) _ w (omega arith)) w in
    rw (build_lem b config payload n sized v room)
      (refl, (pointer_at (pointer_at m 24) 20, parses, same))
