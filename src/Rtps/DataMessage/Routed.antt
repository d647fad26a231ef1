-- ===== src/Rtps/DataMessage/Routed.antt =====
-- A memory that holds a DATA message is parsed.
use open_rtdds.Prelude.{
  ℕ, zero, suc, ◌+◌, ◌-◌, ◌*◌, ◌/◌, ◌%◌, ◌^◌, ◌≤◌, ◌<◌, ◌≡◌, ◌≢◌, refl, ap, ap₂, ◌∙◌, arith, true,
  false, ◌||◌, List, [], ◌∷◌, ◌++◌, length, take, get_or, replicate, Option, ◌==◌, ◌!=◌, ltb, leb,
  bit_and, bit_or, BytePointer, int64_max, if◌then◌else◌,
}
use open_rtdds.Prelude.Shift.{bit_or-high_low}
use open_rtdds.Core.History.{is_null, pointed}
use open_rtdds.Rtps.Types.{EntityId, ByteOrder, big_endian, little_endian}
use open_rtdds.Serialization.Cdr.{byte_at}
use open_rtdds.Rtps.Wire.{
  pointer_at, supported_version, entity_bytes, entity_at, read_uint16, read_uint32,
}
use open_rtdds.Rtps.Wire.Holds.{
  Holds, Holds-pointer_at, Holds-head, Holds-append, byte_at-pointer_at, uint16_bytes, uint32_bytes,
  read_uint16_lem, read_uint32_lem, entity_at_lem,
}
use open_rtdds.Rtps.Wire.Begins.{Begins, Begins-split}
use open_rtdds.Rtps.Router.{order_of, find_submessage, submessage_id_data, RouteContext}
use open_rtdds.Rtps.Codec.Written.{rtps_header, sequence_bytes}
use open_rtdds.Rtps.Codec.Prefix.{
  start_context-rtps_header, HasHeader-rtps_header, find_submessage-single,
}
use open_rtdds.Rtps.DataMessage.{
  DataMessageConfig, DataMessageView, Parsed, is_little, supported_serialized_payload,
  parse_payload, parse_routed, parse_found, parse_data_message,
}

abbrev pub data_flags : ByteOrder → ℕ
data_flags order = if is_little order then bit_or 0x04 0x01 else 0x04

abbrev pub data_bytes : DataMessageConfig → BytePointer → ℕ → List ℕ
data_bytes config payload n =
    let order = config.submessage_byte_order in
    (((((((((rtps_header config.version config.vendor_id config.guid_prefix
                      ++ submessage_id_data ∷ [])
                    ++ data_flags order ∷ [])
                  ++ uint16_bytes ((20 + n) % 2 ^ 16) order)
                ++ uint16_bytes 0 order)
              ++ uint16_bytes 16 order)
            ++ entity_bytes config.reader_id)
          ++ entity_bytes config.writer_id)
        ++ sequence_bytes config.sequence_number order)
      ++ pointed payload n)

-- The view of a DATA message with no INFO before it.
abbrev pub plain_view : DataMessageConfig → BytePointer → ℕ → DataMessageView
plain_view config payload n = record {
  version = config.version;
  vendor_id = config.vendor_id;
  guid_prefix = config.guid_prefix;
  destination_guid_prefix = replicate 12 0;
  has_destination = false;
  source_timestamp_seconds = 0;
  source_timestamp_fraction = 0;
  has_source_timestamp = false;
  reader_id = config.reader_id;
  writer_id = config.writer_id;
  sequence_number = config.sequence_number;
  submessage_byte_order = config.submessage_byte_order;
  serialized_payload = payload;
  payload_size = n;
}

-- The view in a context.
abbrev view_in :
    DataMessageConfig → RouteContext → EntityId → EntityId → BytePointer → ℕ → DataMessageView
view_in config context reader writer payload n = record {
  version = context.version;
  vendor_id = context.vendor_id;
  guid_prefix = context.source;
  destination_guid_prefix = context.destination;
  has_destination = context.has_destination;
  source_timestamp_seconds = context.timestamp.seconds;
  source_timestamp_fraction = context.timestamp.fraction;
  has_source_timestamp = context.has_timestamp;
  reader_id = reader;
  writer_id = writer;
  sequence_number = config.sequence_number;
  submessage_byte_order = config.submessage_byte_order;
  serialized_payload = payload;
  payload_size = n;
}

-- What a config and a payload must be for their DATA message to be built.
pub record Buildable (config : DataMessageConfig) (payload : BytePointer) (n : ℕ) : Type 0 where
  pub prefix_size : length config.guid_prefix ≡ 12
  pub supported : supported_version config.version ≡ true
  pub positive : 0 < config.sequence_number
  pub in_range : config.sequence_number ≤ int64_max
  pub payload_supported : supported_serialized_payload payload n ≡ true
  pub payload_length : length (pointed payload n) ≡ n
  pub datagram : 44 + n ≤ 65507

length-uint16_bytes : (value : ℕ) (order : ByteOrder) → length (uint16_bytes value order) ≡ 2
length-uint16_bytes value little_endian = refl
length-uint16_bytes value big_endian = refl

get_or-take : (xs : List ℕ) (n i : ℕ) → i < n → get_or (take n xs) i 0 ≡ get_or xs i 0
get_or-take xs zero i h = absurd (omega arith)
get_or-take [] (suc n) i h = refl
get_or-take (x ∷ xs) (suc n) zero h = refl
get_or-take (x ∷ xs) (suc n) (suc i) h = get_or-take xs n i (omega arith)

get_or-pointed :
    (payload : BytePointer) (n i : ℕ) → i < n → get_or (pointed payload n) i 0 ≡ byte_at payload i
get_or-pointed Option.none n i h = refl
get_or-pointed (Option.some bytes) n i h = get_or-take bytes n i h

flags_lem :
    (order : ByteOrder)
    → (order_of (data_flags order) ≡ order)
      × ((bit_and (data_flags order) 0x04 != 0) ≡ true)
      × ((bit_and (data_flags order) (0x02 + 0x08 + 0x10) != 0) ≡ false)
flags_lem little_endian = (refl, refl, refl)
flags_lem big_endian = (refl, refl, refl)

-- The number that the parser puts together from two halves.
sequence_lem :
    (b : BytePointer) (k value : ℕ) (order : ByteOrder)
    → value ≤ int64_max
    → Holds b k (sequence_bytes value order)
    → (leb (2 ^ 31) (read_uint32 b k order) ≡ false)
      × (bit_or (read_uint32 b k order * 2 ^ 32 % 2 ^ 64) (read_uint32 b (k + 4) order) ≡ value)
sequence_lem b k value order small h =
    let hi = value / 2 ^ 32 % 2 ^ 32 in
    let lo = value % 2 ^ 32 in
    let parts = Holds-append b k (uint32_bytes hi order) (uint32_bytes lo order) h in
    let high : read_uint32 b k order ≡ hi = read_uint32_lem b k hi order (omega arith) parts.0 in
    let low : read_uint32 b (k + 4) order ≡ lo =
      read_uint32_lem b (k + 4) lo order (omega arith) parts.1 in
    let shifted : hi * 2 ^ 32 % 2 ^ 64 ≡ value / 2 ^ 32 * 2 ^ 32 = omega arith in
    (
      ground (arith, high),
      ap₂ (λ x y. bit_or (x * 2 ^ 32 % 2 ^ 64) y) high low
          ∙ ap (λ x. bit_or x lo) shifted
          ∙ bit_or-high_low 32 (value / 2 ^ 32) lo (omega arith)
          ∙ omega arith,
    )

-- The parser's tests of the payload look at its first two bytes.
payload_tests :
    (p q : BytePointer) (n : ℕ)
    → is_null q ≡ false
    → ((i : ℕ) → i < n → byte_at q i ≡ byte_at p i)
    → supported_serialized_payload p n ≡ true
    → supported_serialized_payload q n ≡ true
payload_tests p q n there same h =
    let four : 4 ≤ n = ground (arith, h) in
    rw (there, same 0 (omega arith), same 1 (omega arith)) (ground (arith, h))

is_null-pointer_at : (b : BytePointer) (k : ℕ) → is_null (pointer_at b k) ≡ is_null b
is_null-pointer_at Option.none k = refl
is_null-pointer_at (Option.some bytes) k = refl

declared_lem :
    (m : BytePointer) (n : ℕ) (order : ByteOrder)
    → 44 + n ≤ 65507
    → Holds m 22 (uint16_bytes ((20 + n) % 2 ^ 16) order)
    → read_uint16 m 22 order ≡ 20 + n
declared_lem m n order small h =
    read_uint16_lem m 22 ((20 + n) % 2 ^ 16) order (omega arith) h ∙ omega arith

module _ (size : ℕ) (m : BytePointer) (config : DataMessageConfig) (payload : BytePointer) (n : ℕ)
    (v : Buildable config payload n) (there : is_null m ≡ false)
    (begins : Begins size m (44 + n) (data_bytes config payload n)) where
  pub parsed_data_message :
      (parse_data_message m (44 + n)
        ≡ Parsed.parsed (plain_view config (pointer_at (pointer_at m 24) 20) n))
      × ((i : ℕ) → i < n → byte_at (pointer_at (pointer_at m 24) 20) i ≡ byte_at payload i)
  unfolding parse_data_message parse_routed parse_payload
  parsed_data_message =
      let order = config.submessage_byte_order in
      let flags = data_flags order in
      let c = pointer_at m 24 in
      let f = flags_lem order in
      let long_enough : 20 ≤ 24 + (20 + n) = omega arith in
      let some : 20 + n ≢ 0 = λ e. omega arith in
      let (s8, payload_at) =
        Begins-split size m 44 n _ (pointed payload n) begins v.payload_length in
      let (s7, number_at) =
        Begins-split size m 36 8 _ (sequence_bytes config.sequence_number order) s8 refl in
      let (s6, writer_at) = Begins-split size m 32 4 _ (entity_bytes config.writer_id) s7 refl in
      let (s5, reader_at) = Begins-split size m 28 4 _ (entity_bytes config.reader_id) s6 refl in
      let (s4, qos_at) =
        Begins-split size m 26 2 _ (uint16_bytes 16 order) s5 (length-uint16_bytes 16 order) in
      let (s3, extra_at) =
        Begins-split size m 24 2 _ (uint16_bytes 0 order) s4 (length-uint16_bytes 0 order) in
      let (s2, size_at) =
        Begins-split size m 22 2 _ (uint16_bytes ((20 + n) % 2 ^ 16) order) s3
          (length-uint16_bytes ((20 + n) % 2 ^ 16) order) in
      let (s1, flags_at) = Begins-split size m 21 1 _ (flags ∷ []) s2 refl in
      let (s0, id_at) = Begins-split size m 20 1 _ (submessage_id_data ∷ []) s1 refl in
      let declared : read_uint16 m 22 (order_of flags) ≡ 20 + n =
        ap (read_uint16 m 22) f.0 ∙ declared_lem m n order v.datagram size_at in
      let routed =
        find_submessage-single m submessage_id_data flags (20 + n)
          (HasHeader-rtps_header size m config.version config.vendor_id config.guid_prefix
            (24 + (20 + n)) s0 v.supported long_enough there)
          (refl, refl, refl) (Holds-head m 20 submessage_id_data [] id_at)
          (Holds-head m 21 flags [] flags_at) declared some in
      let same : (i : ℕ) → i < n → byte_at (pointer_at c 20) i ≡ byte_at payload i = λ i lt.
        byte_at-pointer_at c 20 i
        ∙ byte_at-pointer_at m 24 (20 + i)
        ∙ ap (byte_at m) {x = 24 + (20 + i)} {y = 44 + i} (omega arith)
        ∙ payload_at i (omega (arith, v.payload_length))
        ∙ get_or-pointed payload n i lt in
      let extra : read_uint16 c 0 order ≡ 0 =
        read_uint16_lem c 0 0 order (omega arith)
          (Holds-pointer_at m 24 0 (uint16_bytes 0 order) extra_at) in
      let qos : read_uint16 c 2 order ≡ 16 =
        read_uint16_lem c 2 16 order (omega arith)
          (Holds-pointer_at m 24 2 (uint16_bytes 16 order) qos_at) in
      let number =
        sequence_lem c 12 config.sequence_number order v.in_range
          (Holds-pointer_at m 24 12 (sequence_bytes config.sequence_number order) number_at) in
      let four : 4 ≤ n = ground (arith, v.payload_supported) in
      let long : ltb (20 + n) 24 ≡ false = ground arith in
      let inside : (ltb (20 + n) 20 || ltb (20 + n - 20) 4) ≡ false = ground arith in
      let rest : 20 + n - 20 ≡ n = omega arith in
      let nonzero : (config.sequence_number == 0) ≡ false = ground (arith, v.positive) in
      let fine =
        payload_tests payload (pointer_at c 20) n
          (is_null-pointer_at c 20 ∙ is_null-pointer_at m 24 ∙ there) same v.payload_supported in
      let context : RouteContext = record {
        version = config.version;
        vendor_id = config.vendor_id;
        source = config.guid_prefix;
        destination = replicate 12 0;
        has_destination = false;
        timestamp = record { seconds = 0; fraction = 0 };
        has_timestamp = false;
      } in
      (
        ap (λ k. parse_found (find_submessage m k submessage_id_data 0)) {x = 44 + n}
              {y = 24 + (20 + n)} (omega arith)
            ∙ rw
                (
                  routed, f.0, f.1, f.2, long, extra, qos, inside, number.0, number.1, nonzero,
                  rest, fine,
                )
                (ap Parsed.parsed (
                  ap (λ x. view_in config x (entity_at c 4) (entity_at c 8) (pointer_at c 20) n)
                    (start_context-rtps_header size m config.version config.vendor_id
                      config.guid_prefix s0)
                  ∙ ap₂ (λ r w. view_in config context r w (pointer_at c 20) n)
                      (entity_at_lem c 4 config.reader_id
                        (Holds-pointer_at m 24 4 (entity_bytes config.reader_id) reader_at))
                      (entity_at_lem c 8 config.writer_id
                        (Holds-pointer_at m 24 8 (entity_bytes config.writer_id) writer_at)))),
        same,
      )
