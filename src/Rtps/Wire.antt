-- ===== src/Rtps/Wire.antt =====
-- The byte helpers that src/rtps/reliability_messages.cpp, src/rtps/data_message.cpp and
-- src/rtps/message_router.cpp each define: integers at an index of a message, and the RTPS header.
-- The value of a uint32_t loop is that of the CDR loop, cut to 32 bits.
pub mod Holds
pub mod Begins
use open_rtdds.Prelude.{
  ℕ, ◌+◌, ◌*◌, ◌/◌, ◌%◌, ◌^◌, Bool, true, false, ◌&&◌, leb, ◌==◌, ◌!=◌, ◌∷◌, List, [], Option,
  bit_or, BytePointer, drop,
}
use open_rtdds.Rtps.Types.{
  ByteOrder, big_endian, little_endian, ProtocolVersion, VendorId, GuidPrefix, EntityId,
}
use open_rtdds.Serialization.Cdr.{byte_at, put_byte, copy_to}
use open_rtdds.Serialization.Integral.{store_integral, load_integral}
use open_rtdds.Serialization.Reader.{bytes_from}

-- `&pointer[index]`
abbrev pub pointer_at : BytePointer → ℕ → BytePointer
pointer_at Option.none index = Option.none
pointer_at (Option.some bytes) index = Option.some (drop index bytes)

abbrev pub supported_byte_order : ByteOrder → Bool
supported_byte_order big_endian = true
supported_byte_order little_endian = true

abbrev pub supported_version : ProtocolVersion → Bool
supported_version version = version.major == 2 && version.minor != 0 && leb version.minor 5

unfoldable pub write_uint16 : BytePointer → ℕ → ℕ → ByteOrder → BytePointer
write_uint16 b index value little_endian =
    put_byte (put_byte b index (value % 2 ^ 8)) (index + 1) (value / 2 ^ 8 % 2 ^ 8)
write_uint16 b index value big_endian =
    put_byte (put_byte b index (value / 2 ^ 8 % 2 ^ 8)) (index + 1) (value % 2 ^ 8)

unfoldable pub write_uint32 : BytePointer → ℕ → ℕ → ByteOrder → BytePointer
write_uint32 b index value order = store_integral order index value 4 b

unfoldable pub write_sequence_number : BytePointer → ℕ → ℕ → ByteOrder → BytePointer
write_sequence_number b index sequence_number order =
    write_uint32 (write_uint32 b index (sequence_number / 2 ^ 32 % 2 ^ 32) order) (index + 4)
      (sequence_number % 2 ^ 32) order

unfoldable pub read_uint16 : BytePointer → ℕ → ByteOrder → ℕ
read_uint16 b index little_endian =
    bit_or (byte_at b index) (byte_at b (index + 1) * 2 ^ 8) % 2 ^ 16
read_uint16 b index big_endian = bit_or (byte_at b index * 2 ^ 8) (byte_at b (index + 1)) % 2 ^ 16

unfoldable pub read_uint32 : BytePointer → ℕ → ByteOrder → ℕ
read_uint32 b index order = load_integral order index 4 b % 2 ^ 32

-- `buffer[index] |= mask`
abbrev pub or_byte : BytePointer → ℕ → ℕ → BytePointer
or_byte b index mask = put_byte b index (bit_or (byte_at b index) mask)

abbrev pub vendor_bytes : VendorId → List ℕ
vendor_bytes vendor = vendor.v0 ∷ vendor.v1 ∷ []

abbrev pub entity_bytes : EntityId → List ℕ
entity_bytes id = id.e0 ∷ id.e1 ∷ id.e2 ∷ id.e3 ∷ []

abbrev pub vendor_at : BytePointer → ℕ → VendorId
vendor_at b index = record { v0 = byte_at b index; v1 = byte_at b (index + 1) }

abbrev pub entity_at : BytePointer → ℕ → EntityId
entity_at b index = record {
  e0 = byte_at b index;
  e1 = byte_at b (index + 1);
  e2 = byte_at b (index + 2);
  e3 = byte_at b (index + 3);
}

abbrev pub prefix_at : BytePointer → ℕ → GuidPrefix
prefix_at b index = bytes_from b index 12

unfoldable pub write_rtps_header :
    BytePointer → ProtocolVersion → VendorId → GuidPrefix → BytePointer
write_rtps_header b version vendor guid_prefix =
    let named = put_byte (put_byte (put_byte (put_byte b 0 b'R') 1 b'T') 2 b'P') 3 b'S' in
    let versioned = put_byte (put_byte named 4 version.major) 5 version.minor in
    copy_to (copy_to versioned 6 (vendor_bytes vendor)) 8 guid_prefix
