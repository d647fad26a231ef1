-- ===== src/Rtps/Codec/Prefix.antt =====
-- Integers that the parsers read, and the routing of a message with one submessage.
use open_rtdds.Prelude.{
  ℕ, zero, suc, ◌+◌, ◌*◌, ◌/◌, ◌%◌, ◌^◌, ◌≤◌, ◌≡◌, ◌≢◌, refl, sym, ap, ◌∙◌, arith, Bool, true,
  false, ◌&&◌, not, [], ◌∷◌, length, Option, ◌==◌, leb, ltb, bit_or, BytePointer, int64_max,
}
use open_rtdds.Prelude.Shift.{bit_or-high_low}
use open_rtdds.Core.History.{is_null}
use open_rtdds.Rtps.Types.{ByteOrder, ProtocolVersion, VendorId, GuidPrefix}
use open_rtdds.Serialization.Cdr.{byte_at}
use open_rtdds.Serialization.Reader.{bytes_from}
use open_rtdds.Rtps.Wire.{pointer_at, read_uint16, read_uint32, supported_version, prefix_at}
use open_rtdds.Rtps.Wire.Holds.{
  Holds, uint32_bytes, read_uint32_lem, Holds-bytes_from, prefix_at_lem, get_or-append_left,
  get_or-append_right,
}
use open_rtdds.Rtps.Wire.Begins.{Begins}
use open_rtdds.Rtps.Router.{
  MessageRouteError, apply_info, order_of, find_submessage, routed_view, start_context,
  submessage_id_info_destination, submessage_id_info_source, submessage_id_info_timestamp,
}
use open_rtdds.Rtps.Router.Carried.{Submessage, Stands}
use open_rtdds.Rtps.Router.Listed.{HasHeader, find_submessage-select}
use open_rtdds.Rtps.Codec.Parsing.{read_sequence_number}
use open_rtdds.Rtps.Codec.Written.{rtps_header, sequence_bytes}

pub read_sequence_number_lem :
    (b : BytePointer) (k value : ℕ) (order : ByteOrder) (allow_zero : Bool)
    → value ≤ int64_max
    → (not allow_zero && value == 0) ≡ false
    → Holds b k (sequence_bytes value order)
    → read_sequence_number b k order allow_zero ≡ Option.some value
unfolding read_sequence_number
read_sequence_number_lem b k value order allow_zero small fine h =
    let hi = value / 2 ^ 32 % 2 ^ 32 in
    let lo = value % 2 ^ 32 in
    let high : read_uint32 b k order ≡ hi = read_uint32_lem b k hi order (omega arith) (λ i lt.
      h i (omega arith)
      ∙ get_or-append_left (uint32_bytes hi order) (uint32_bytes lo order) i lt) in
    let low : read_uint32 b (k + 4) order ≡ lo =
      read_uint32_lem b (k + 4) lo order (omega arith) (λ i lt.
        ap (byte_at b) {x = k + 4 + i} {y = k + (4 + i)} (omega arith)
        ∙ h (4 + i) (omega arith)
        ∙ get_or-append_right (uint32_bytes hi order) (uint32_bytes lo order) i) in
    let shifted : hi * 2 ^ 32 % 2 ^ 64 ≡ value / 2 ^ 32 * 2 ^ 32 = omega arith in
    let whole : bit_or (hi * 2 ^ 32 % 2 ^ 64) lo ≡ value =
      ap (λ x. bit_or x lo) shifted
      ∙ bit_or-high_low 32 (value / 2 ^ 32) lo (omega arith)
      ∙ omega arith in
    let positive : leb (2 ^ 31) hi ≡ false = ground arith in
    let bounded : ltb int64_max value ≡ false = ground arith in
    rw (high, low, whole, positive, fine, bounded)

length-bytes_from : (b : BytePointer) (k n : ℕ) → length (bytes_from b k n) ≡ n
length-bytes_from b k zero = refl
length-bytes_from b k (suc n) = ap suc (length-bytes_from b (suc k) n)

-- The header that a message begins with.
module _ (n : ℕ) (b : BytePointer) (version : ProtocolVersion) (vendor : VendorId)
    (guid_prefix : GuidPrefix) where
  pub start_context-rtps_header :
      Begins n b 20 (rtps_header version vendor guid_prefix)
      → start_context b ≡ record {
        version = version;
        vendor_id = vendor;
        source = guid_prefix;
        destination = (start_context b).destination;
        has_destination = false;
        timestamp = record { seconds = 0; fraction = 0 };
        has_timestamp = false;
      }
  start_context-rtps_header v =
      let prefix : prefix_at b 8 ≡ guid_prefix =
        prefix_at_lem b 8 guid_prefix (omega (arith, v.size)) (λ i lt.
          v.holds (8 + i) (omega (arith, v.size))
          ∙ get_or-append_right
              (b'R' ∷ b'T' ∷ b'P' ∷ b'S' ∷ version.major ∷ version.minor ∷ vendor.v0 ∷ vendor.v1
                ∷ [])
              guid_prefix i) in
      rw (
        v.holds 4 (omega arith),
        v.holds 5 (omega arith),
        v.holds 6 (omega arith),
        v.holds 7 (omega arith),
        prefix,
      )

  pub HasHeader-rtps_header :
      (size : ℕ)
      → Begins n b 20 (rtps_header version vendor guid_prefix)
      → supported_version version ≡ true
      → 20 ≤ size
      → is_null b ≡ false
      → HasHeader b size
  HasHeader-rtps_header size v good room pointed = record {
    long = room;
    pointed = pointed;
    rtps = rw (
      v.holds 0 (omega arith),
      v.holds 1 (omega arith),
      v.holds 2 (omega arith),
      v.holds 3 (omega arith),
    );
    supported = rw (v.holds 4 (omega arith), v.holds 5 (omega arith)) good;
  }

-- Submessages that carry no INFO, and may not be empty.
abbrev pub IsPlain : ℕ → Type 0
IsPlain id =
    ((id == submessage_id_info_destination) ≡ false)
    × ((id == submessage_id_info_source) ≡ false)
    × ((id == submessage_id_info_timestamp) ≡ false)

-- A message whose one submessage fills it after the header.
pub find_submessage-single :
    (m : BytePointer) (id flags content_size : ℕ)
    → HasHeader m (24 + content_size)
    → IsPlain id
    → byte_at m 20 ≡ id
    → byte_at m 21 ≡ flags
    → read_uint16 m 22 (order_of flags) ≡ content_size
    → content_size ≢ 0
    → find_submessage m (24 + content_size) id 0 ≡ (
      MessageRouteError.none,
      Option.some (
          routed_view
            (start_context m)
            id
            flags
            (order_of flags)
            (pointer_at m 24)
            content_size
            20),
    )
unfolding apply_info
find_submessage-single m id flags content_size header plain id_at flags_at declared some =
    let body = bytes_from m 24 content_size in
    let size = length-bytes_from m 24 content_size in
    let sub : Submessage = record { id = id; flags = flags; body = body; open_ended = false } in
    let nonempty : (content_size == 0) ≡ false = ground (arith, some) in
    let stands : Stands m (24 + content_size) 20 sub = record {
      id_at = id_at;
      flags_at = flags_at;
      declared = declared ∙ sym size;
      extends_eq = rw (size, nonempty);
      body_at = Holds-bytes_from m 24 body (ap (bytes_from m 24) size);
      fits = omega (arith, size);
      last = λ e. cc;
    } in
    let same : (id == id) ≡ true = ground arith in
    find_submessage-select m (24 + content_size) id 0 (sub ∷ []) header
      (stands, omega (arith, size))
    ∙ rw (plain.0, plain.1, plain.2, same, size)
