-- ===== src/Rtps/Codec/Written.antt =====
-- What the builders leave in memory, part by part.
use open_rtdds.Prelude.{
  ℕ, ◌+◌, ◌/◌, ◌%◌, ◌^◌, ◌≤◌, ◌≡◌, refl, ap, ◌∙◌, get_or, append_assoc, arith, Bool, List, [], ◌∷◌,
  ◌++◌, length, length-append, bit_or, BytePointer, if◌then◌else◌,
}
use open_rtdds.Rtps.Types.{ByteOrder, ProtocolVersion, VendorId, GuidPrefix, EntityId}
use open_rtdds.Serialization.Cdr.{copy_to}
use open_rtdds.Serialization.Integral.{Sized}
use open_rtdds.Rtps.Wire.{write_rtps_header, write_sequence_number, vendor_bytes, entity_bytes}
use open_rtdds.Rtps.Wire.Holds.{uint16_bytes, uint32_bytes}
use open_rtdds.Rtps.Wire.Begins.{
  Begins, Begins-nil, Begins-put_byte, Begins-copy_to, Begins-or_byte, Begins-write_uint16,
  Begins-write_uint32,
}
use open_rtdds.Rtps.Codec.{is_little, write_submessage_header}

abbrev pub rtps_header : ProtocolVersion → VendorId → GuidPrefix → List ℕ
rtps_header version vendor guid_prefix =
    (b'R' ∷ b'T' ∷ b'P' ∷ b'S' ∷ version.major ∷ version.minor ∷ vendor.v0 ∷ vendor.v1 ∷ [])
    ++ guid_prefix

pub Begins-write_rtps_header :
    (n : ℕ) (b : BytePointer) (version : ProtocolVersion) (vendor : VendorId)
    (guid_prefix : GuidPrefix)
    → Sized n b
    → length guid_prefix ≡ 12
    → 20 ≤ n
    → Begins n
        (write_rtps_header b version vendor guid_prefix)
        20
        (rtps_header version vendor guid_prefix)
unfolding write_rtps_header
Begins-write_rtps_header n b version vendor guid_prefix sized twelve room =
    let r = Begins-put_byte n b 0 [] b'R' (Begins-nil n b sized) (omega arith) in
    let t = Begins-put_byte n _ 1 (b'R' ∷ []) b'T' r (omega arith) in
    let p = Begins-put_byte n _ 2 (b'R' ∷ b'T' ∷ []) b'P' t (omega arith) in
    let s = Begins-put_byte n _ 3 (b'R' ∷ b'T' ∷ b'P' ∷ []) b'S' p (omega arith) in
    let major =
      Begins-put_byte n _ 4 (b'R' ∷ b'T' ∷ b'P' ∷ b'S' ∷ []) version.major s (omega arith) in
    let minor =
      Begins-put_byte n _ 5 (b'R' ∷ b'T' ∷ b'P' ∷ b'S' ∷ version.major ∷ []) version.minor major
        (omega arith) in
    let vendors =
      Begins-copy_to n _ 6 2 (b'R' ∷ b'T' ∷ b'P' ∷ b'S' ∷ version.major ∷ version.minor ∷ [])
        (vendor_bytes vendor) minor refl (omega arith) in
    Begins-copy_to n _ 8 12
      (b'R' ∷ b'T' ∷ b'P' ∷ b'S' ∷ version.major ∷ version.minor ∷ vendor.v0 ∷ vendor.v1 ∷ [])
      guid_prefix vendors twelve room

-- The flags byte.
abbrev pub flags_of : ByteOrder → Bool → Bool → ℕ
flags_of order final liveliness =
    let ordered = if is_little order then bit_or 0 0x01 else 0 in
    let finals = if final then bit_or ordered 0x02 else ordered in
    if liveliness then bit_or finals 0x04 else finals

pub Begins-write_submessage_header :
    (n : ℕ) (b : BytePointer) (ps : List ℕ) (id : ℕ) (final liveliness : Bool) (size : ℕ)
    (order : ByteOrder)
    → Begins n b 20 ps
    → 24 ≤ n
    → Begins n (write_submessage_header b id final liveliness size order) 24 (
        ((ps ++ id ∷ []) ++ flags_of order final liveliness ∷ [])
        ++ uint16_bytes (size % 2 ^ 16) order)
unfolding write_submessage_header
Begins-write_submessage_header n b ps id final liveliness size order v room =
    let i = Begins-put_byte n b 20 ps id v (omega arith) in
    let qs = ps ++ id ∷ [] in
    let at : length qs ≡ 21 = omega (arith, length-append ps (id ∷ []), v.size) in
    let z = Begins-put_byte n _ 21 qs 0 i (omega arith) in
    let o = Begins-or_byte n _ 21 qs 0 0x01 (is_little order) z at (omega arith) in
    let f = Begins-or_byte n _ 21 qs _ 0x02 final o at (omega arith) in
    let l = Begins-or_byte n _ 21 qs _ 0x04 liveliness f at (omega arith) in
    Begins-write_uint16 n _ 22 (qs ++ flags_of order final liveliness ∷ []) (size % 2 ^ 16) order l
      room

abbrev pub sequence_bytes : ℕ → ByteOrder → List ℕ
sequence_bytes value order =
    uint32_bytes (value / 2 ^ 32 % 2 ^ 32) order ++ uint32_bytes (value % 2 ^ 32) order

pub Begins-write_sequence_number :
    (n : ℕ) (b : BytePointer) (k : ℕ) (ps : List ℕ) (value : ℕ) (order : ByteOrder)
    → Begins n b k ps
    → k + 8 ≤ n
    → Begins n (write_sequence_number b k value order) (k + 8) (ps ++ sequence_bytes value order)
unfolding write_sequence_number
Begins-write_sequence_number n b k ps value order v room =
    let hi = uint32_bytes (value / 2 ^ 32 % 2 ^ 32) order in
    let lo = uint32_bytes (value % 2 ^ 32) order in
    let h = Begins-write_uint32 n b k ps (value / 2 ^ 32 % 2 ^ 32) order v (omega arith) in
    let l = Begins-write_uint32 n _ (k + 4) (ps ++ hi) (value % 2 ^ 32) order h (omega arith) in
    record {
      sized = l.sized;
      size = omega (arith, length-append ps (hi ++ lo), v.size);
      holds = λ i lt. l.holds i (omega arith) ∙ ap (λ xs. get_or xs i 0) (append_assoc ps hi lo);
    }

-- The identifiers of the reader and of the writer, at 24 and 28.
pub Begins-entities :
    (n : ℕ) (b : BytePointer) (k : ℕ) (ps : List ℕ) (reader writer : EntityId)
    → Begins n b k ps
    → k + 8 ≤ n
    → Begins n
        (copy_to (copy_to b k (entity_bytes reader)) (k + 4) (entity_bytes writer))
        (k + 8)
        ((ps ++ entity_bytes reader) ++ entity_bytes writer)
Begins-entities n b k ps reader writer v room =
    let r = Begins-copy_to n b k 4 ps (entity_bytes reader) v refl (omega arith) in
    let w =
      Begins-copy_to n _ (k + 4) 4 (ps ++ entity_bytes reader) (entity_bytes writer) r refl
        (omega arith) in
    record {
      sized = w.sized;
      size = omega (arith, w.size);
      holds = λ i lt. w.holds i (omega arith);
    }
