-- ===== src/Rtps/Wire/Holds.antt =====
-- What memory holds at an index, and what the readers make of it.
use open_rtdds.Prelude.{
  ℕ, zero, suc, ◌+◌, ◌*◌, ◌/◌, ◌%◌, ◌^◌, ◌<◌, ◌≡◌, refl, sym, ap, ap₂, ◌∙◌, arith, List, [], ◌∷◌,
  ◌++◌, Option, length, length-append, get_or, drop, bit_or, BytePointer,
}
use open_rtdds.Prelude.Shift.{bit_or-high_low, bit_or-low_high}
use native.Mathlib.Nat.{mod-eq_of_lt}
use open_rtdds.Rtps.Types.{ByteOrder, big_endian, little_endian, EntityId, GuidPrefix}
use open_rtdds.Serialization.Cdr.{byte_at}
use open_rtdds.Serialization.Integral.{stored_byte, load_integral_stored}
use open_rtdds.Serialization.Copies.{bytes_from_eq}
use open_rtdds.Serialization.Reader.{bytes_from}
use open_rtdds.Rtps.Wire.{pointer_at, read_uint16, read_uint32, entity_bytes, entity_at, prefix_at}

abbrev pub Holds : BytePointer → ℕ → List ℕ → Type 0
Holds b index xs = (i : ℕ) → i < length xs → byte_at b (index + i) ≡ get_or xs i 0

-- A byte behind a pointer into memory.
get_or-drop : (xs : List ℕ) (k i : ℕ) → get_or (drop k xs) i 0 ≡ get_or xs (k + i) 0
get_or-drop xs zero i = ap (λ n. get_or xs n 0) {x = i} {y = 0 + i} (omega arith)
get_or-drop [] (suc k) i = refl
get_or-drop (x ∷ xs) (suc k) i =
    get_or-drop xs k i
    ∙ ap (λ n. get_or (x ∷ xs) n 0) {x = suc (k + i)} {y = suc k + i} (omega arith)

pub byte_at-pointer_at :
    (b : BytePointer) (k i : ℕ) → byte_at (pointer_at b k) i ≡ byte_at b (k + i)
byte_at-pointer_at Option.none k i = refl
byte_at-pointer_at (Option.some xs) k i = get_or-drop xs k i

pub Holds-pointer_at :
    (b : BytePointer) (k index : ℕ) (xs : List ℕ)
    → Holds b (k + index) xs
    → Holds (pointer_at b k) index xs
Holds-pointer_at b k index xs h i lt =
    byte_at-pointer_at b k (index + i)
    ∙ ap (byte_at b) {x = k + (index + i)} {y = k + index + i} (omega arith)
    ∙ h i lt

pub get_or-append_left :
    (xs ys : List ℕ) (i : ℕ) → i < length xs → get_or (xs ++ ys) i 0 ≡ get_or xs i 0
get_or-append_left [] ys i h = absurd (omega arith)
get_or-append_left (x ∷ xs) ys zero h = refl
get_or-append_left (x ∷ xs) ys (suc i) h = get_or-append_left xs ys i (omega arith)

pub get_or-append_right :
    (xs ys : List ℕ) (i : ℕ) → get_or (xs ++ ys) (length xs + i) 0 ≡ get_or ys i 0
get_or-append_right [] ys i = ap (λ n. get_or ys n 0) {x = 0 + i} {y = i} (omega arith)
get_or-append_right (x ∷ xs) ys i =
    ap (λ n. get_or (x ∷ xs ++ ys) n 0) {x = suc (length xs) + i} {y = suc (length xs + i)}
      (omega arith)
    ∙ get_or-append_right xs ys i

-- One byte, and the bytes after it.
pub Holds-head : (b : BytePointer) (k x : ℕ) (xs : List ℕ) → Holds b k (x ∷ xs) → byte_at b k ≡ x
Holds-head b k x xs h = ap (byte_at b) {x = k} {y = k + 0} (omega arith) ∙ h 0 (omega arith)

-- The bytes of an integer in either order.
abbrev pub uint16_bytes : ℕ → ByteOrder → List ℕ
uint16_bytes value little_endian = value % 2 ^ 8 ∷ value / 2 ^ 8 % 2 ^ 8 ∷ []
uint16_bytes value big_endian = value / 2 ^ 8 % 2 ^ 8 ∷ value % 2 ^ 8 ∷ []

abbrev pub uint32_bytes : ℕ → ByteOrder → List ℕ
uint32_bytes value order =
    stored_byte order 4 value 0
    ∷ stored_byte order 4 value 1
    ∷ stored_byte order 4 value 2
    ∷ stored_byte order 4 value 3
    ∷ []

pub read_uint16_lem :
    (b : BytePointer) (k value : ℕ) (order : ByteOrder)
    → value < 2 ^ 16
    → Holds b k (uint16_bytes value order)
    → read_uint16 b k order ≡ value
unfolding read_uint16
read_uint16_lem b k value little_endian small h =
    let low = Holds-head b k (value % 2 ^ 8) (value / 2 ^ 8 % 2 ^ 8 ∷ []) h in
    let high = h 1 (omega arith) in
    ap₂ (λ x y. bit_or x (y * 2 ^ 8) % 2 ^ 16) low high
    ∙ ap (λ x. x % 2 ^ 16) (bit_or-low_high 8 (value / 2 ^ 8 % 2 ^ 8) (value % 2 ^ 8) (omega arith))
    ∙ omega arith
read_uint16_lem b k value big_endian small h =
    let high = Holds-head b k (value / 2 ^ 8 % 2 ^ 8) (value % 2 ^ 8 ∷ []) h in
    let low = h 1 (omega arith) in
    ap₂ (λ x y. bit_or (x * 2 ^ 8) y % 2 ^ 16) high low
    ∙ ap (λ x. x % 2 ^ 16) (bit_or-high_low 8 (value / 2 ^ 8 % 2 ^ 8) (value % 2 ^ 8) (omega arith))
    ∙ omega arith

pub get_or-uint32_bytes :
    (value : ℕ) (order : ByteOrder) (i : ℕ)
    → i < 4
    → get_or (uint32_bytes value order) i 0 ≡ stored_byte order 4 value i
get_or-uint32_bytes value order zero h = refl
get_or-uint32_bytes value order (suc zero) h = refl
get_or-uint32_bytes value order (suc (suc zero)) h = refl
get_or-uint32_bytes value order (suc (suc (suc zero))) h = refl
get_or-uint32_bytes value order (suc (suc (suc (suc i)))) h = absurd (omega arith)

pub read_uint32_lem :
    (b : BytePointer) (k value : ℕ) (order : ByteOrder)
    → value < 2 ^ 32
    → Holds b k (uint32_bytes value order)
    → read_uint32 b k order ≡ value
unfolding read_uint32
read_uint32_lem b k value order small h =
    ap (λ x. x % 2 ^ 32)
      (load_integral_stored order 4 value k b (omega arith) small
        (λ i lt. h i lt ∙ get_or-uint32_bytes value order i lt))
    ∙ mod-eq_of_lt small

pub entity_at_lem :
    (b : BytePointer) (k : ℕ) (id : EntityId) → Holds b k (entity_bytes id) → entity_at b k ≡ id
entity_at_lem b k id h =
    let first = Holds-head b k id.e0 (id.e1 ∷ id.e2 ∷ id.e3 ∷ []) h in
    ground (arith, first, h 1 (omega arith), h 2 (omega arith), h 3 (omega arith))

pub prefix_at_lem :
    (b : BytePointer) (k : ℕ) (guid_prefix : GuidPrefix)
    → length guid_prefix ≡ 12
    → Holds b k guid_prefix
    → prefix_at b k ≡ guid_prefix
prefix_at_lem b k guid_prefix size h =
    ap (bytes_from b k) (sym size) ∙ bytes_from_eq b k guid_prefix h

-- Bytes that are read as a list are that list's.
pub Holds-bytes_from :
    (b : BytePointer) (k : ℕ) (xs : List ℕ) → bytes_from b k (length xs) ≡ xs → Holds b k xs
Holds-bytes_from b k [] e i lt = absurd (omega arith)
Holds-bytes_from b k (x ∷ xs) e zero lt =
    ap (byte_at b) {x = k + 0} {y = k} (omega arith) ∙ ap (λ l. get_or l 0 0) e
Holds-bytes_from b k (x ∷ xs) e (suc i) lt =
    ap (byte_at b) {x = k + suc i} {y = suc k + i} (omega arith)
    ∙ Holds-bytes_from b (suc k) xs (cc) i (omega arith)

-- Bytes in two parts.
pub Holds-append :
    (b : BytePointer) (k : ℕ) (xs ys : List ℕ)
    → Holds b k (xs ++ ys)
    → Holds b k xs × Holds b (k + length xs) ys
Holds-append b k xs ys h =
    let both = length-append xs ys in
    (
      λ i lt. h i (omega (arith, both)) ∙ get_or-append_left xs ys i lt,
      λ i lt.
          ap (byte_at b) {x = k + length xs + i} {y = k + (length xs + i)} (omega arith)
          ∙ h (length xs + i) (omega (arith, both))
          ∙ get_or-append_right xs ys i,
    )
