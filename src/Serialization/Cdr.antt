-- ===== src/Serialization/Cdr.antt =====
-- What the CDR writer and reader of src/serialization/cdr.cpp share: errors, alignment, and bytes
-- behind a pointer.
use open_rtdds.Prelude.{
  ℕ, ◌≤◌, ◌<◌, ◌^◌, ◌≡◌, Bool, true, false, ◌&&◌, ◌||◌, not, List, Option, arith, ltb, ◌==◌, ◌!=◌,
  if◌then◌else◌, get_or, set, blit, add64, sub64, size_max, BytePointer, bit_and,
}

pub data CdrError : Type 0 where
  none invalid_argument not_initialized overflow : CdrError
  underflow unsupported_encoding invalid_data bound_exceeded : CdrError

abbrev pub is_good : CdrError → Bool
is_good CdrError.none = true
is_good _ = false

abbrev pub encapsulation_size : ℕ
encapsulation_size = 4

abbrev pub is_power_of_two : ℕ → Bool
is_power_of_two value = value != 0 && bit_and value (sub64 value 1) == 0

abbrev pub padding : ℕ → ℕ → ℕ
padding relative alignment =
    if bit_and relative (sub64 alignment 1) == 0
    then 0
    else sub64 alignment (bit_and relative (sub64 alignment 1))

-- `none` is the answer `false`.
unfoldable pub aligned_position : ℕ → ℕ → ℕ → Option ℕ
aligned_position offset origin alignment =
    if ltb offset origin || not (is_power_of_two alignment)
    then Option.none
    else if ltb (sub64 size_max (padding (sub64 offset origin) alignment)) offset
    then Option.none
    else Option.some (add64 offset (padding (sub64 offset origin) alignment))

-- A byte behind a pointer, and the pointer's memory after a byte is written.
abbrev pub byte_at : BytePointer → ℕ → ℕ
byte_at Option.none i = 0
byte_at (Option.some bytes) i = get_or bytes i 0

abbrev pub put_byte : BytePointer → ℕ → ℕ → BytePointer
put_byte Option.none i value = Option.none
put_byte (Option.some bytes) i value = Option.some (set bytes i value)

-- memcpy to an index behind a pointer
abbrev pub copy_to : BytePointer → ℕ → List ℕ → BytePointer
copy_to Option.none i bytes = Option.none
copy_to (Option.some memory) i bytes = Option.some (blit memory i bytes)

-- An aligned position does not lie before the offset, and is no more than 2 ^ 64 - 1.
pub aligned_position-le :
    (offset origin alignment start : ℕ)
    → aligned_position offset origin alignment ≡ Option.some start
    → (offset ≤ start) × (start < 2 ^ 64)
unfolding aligned_position
aligned_position-le offset origin alignment start e = (ground arith, ground arith)
