-- ===== src/Serialization/Reader.antt =====
-- CdrReader of include/openrtdds/serialization/cdr.hpp and src/serialization/cdr.cpp. Operations
-- return the value that was read, or `none` for the answer `false`, and the new reader.
use open_rtdds.Prelude.{
  ℕ, zero, suc, ◌-◌, ◌%◌, ◌^◌, Bool, true, false, ◌&&◌, ◌||◌, not, List, [], ◌∷◌, Option, ltb, ◌==◌,
  ◌!=◌, if◌then◌else◌, add64, sub64, BytePointer,
}
use open_rtdds.Core.History.{is_null}
use open_rtdds.Rtps.Types.{ByteOrder, big_endian, little_endian}
use open_rtdds.Serialization.Cdr.{
  CdrError, is_good, encapsulation_size, aligned_position, byte_at, copy_to,
}
use open_rtdds.Serialization.Integral.{load_integral}

pub record CdrReader : Type 0 where
  pub buffer : BytePointer
  pub size : ℕ
  pub offset : ℕ
  pub origin : ℕ
  pub byte_order : ByteOrder
  pub error : CdrError
  pub initialized : Bool

unfoldable pub init : BytePointer → ℕ → CdrReader
init buffer size = record {
  buffer = buffer;
  size = size;
  offset = 0;
  origin = 0;
  byte_order = little_endian;
  error = if is_null buffer && size != 0 then CdrError.invalid_argument else CdrError.none;
  initialized = false;
}

abbrev pub fail : CdrReader → CdrError → CdrReader
fail r error = record r { error = if is_good r.error then error else r.error }

abbrev pub restarted : CdrReader → CdrReader
restarted r = record r { offset = 0; origin = 0; initialized = false; error = CdrError.none }

unfoldable pub begin : CdrReader → Bool × CdrReader
begin r =
    if is_null r.buffer && r.size != 0
    then (false, fail (restarted r) CdrError.invalid_argument)
    else if ltb r.size encapsulation_size
    then (false, fail (restarted r) CdrError.underflow)
    else if byte_at r.buffer 0 != 0 || (byte_at r.buffer 1 != 0 && byte_at r.buffer 1 != 1)
    then (false, fail (restarted r) CdrError.unsupported_encoding)
    else (
      true,
      record (restarted r) {
        byte_order = if byte_at r.buffer 1 == 1 then little_endian else big_endian;
        offset = encapsulation_size;
        origin = encapsulation_size;
        initialized = true;
      },
    )

abbrev pub locate_at : CdrReader → ℕ → Option ℕ → Option (ℕ × ℕ) × CdrReader
locate_at r width Option.none = (Option.none, fail r CdrError.underflow)
locate_at r width (Option.some start) =
    if ltb r.size start || ltb (r.size - start) width
    then (Option.none, fail r CdrError.underflow)
    else (Option.some (start, add64 start width), r)

-- The start and the end of the bytes to read.
unfoldable pub locate : CdrReader → ℕ → ℕ → Option (ℕ × ℕ) × CdrReader
locate r alignment width =
    if not (is_good r.error)
    then (Option.none, r)
    else if not r.initialized
    then (Option.none, fail r CdrError.not_initialized)
    else locate_at r width (aligned_position r.offset r.origin alignment)

abbrev pub finish_integral : ℕ → Option (ℕ × ℕ) × CdrReader → Option ℕ × CdrReader
finish_integral width (Option.none, r) = (Option.none, r)
finish_integral width (Option.some (start, end), r) =
    (Option.some (load_integral r.byte_order start width r.buffer), record r { offset = end })

unfoldable pub read_integral : CdrReader → ℕ → ℕ → Option ℕ × CdrReader
read_integral r width alignment = finish_integral width (locate r alignment width)

-- The cast to an unsigned type of `bits` bits.
abbrev pub narrowed : ℕ → Option ℕ × CdrReader → Option ℕ × CdrReader
narrowed bits (Option.none, r) = (Option.none, r)
narrowed bits (Option.some value, r) = (Option.some (value % 2 ^ bits), r)

abbrev pub read_uint8 : CdrReader → Option ℕ × CdrReader
read_uint8 r = narrowed 8 (read_integral r 1 1)

abbrev pub read_uint16 : CdrReader → Option ℕ × CdrReader
read_uint16 r = narrowed 16 (read_integral r 2 2)

abbrev pub read_uint32 : CdrReader → Option ℕ × CdrReader
read_uint32 r = narrowed 32 (read_integral r 4 4)

abbrev pub read_uint64 : CdrReader → Option ℕ × CdrReader
read_uint64 r = read_integral r 8 8

abbrev pub read_int16 : CdrReader → Option ℕ × CdrReader
read_int16 r = read_uint16 r

abbrev pub read_int32 : CdrReader → Option ℕ × CdrReader
read_int32 r = read_uint32 r

abbrev pub read_int64 : CdrReader → Option ℕ × CdrReader
read_int64 r = read_uint64 r

abbrev pub read_float32 : CdrReader → Option ℕ × CdrReader
read_float32 r = read_uint32 r

abbrev pub read_float64 : CdrReader → Option ℕ × CdrReader
read_float64 r = read_uint64 r

-- The offset goes back where the byte is no Boolean.
abbrev pub finish_bool : ℕ → Option ℕ × CdrReader → Option Bool × CdrReader
finish_bool saved (Option.none, r) = (Option.none, r)
finish_bool saved (Option.some encoded, r) =
    if ltb 1 encoded
    then (Option.none, fail (record r { offset = saved }) CdrError.invalid_data)
    else (Option.some (encoded == 1), r)

unfoldable pub read_bool : CdrReader → Option Bool × CdrReader
read_bool r = finish_bool r.offset (read_uint8 r)

-- The `size` bytes from an index on.
abbrev pub bytes_from : BytePointer → ℕ → ℕ → List ℕ
bytes_from buffer start zero = []
bytes_from buffer start (suc size) = byte_at buffer start ∷ bytes_from buffer (suc start) size

-- The value is the memory behind the destination after the copy.
abbrev pub finish_bytes :
    BytePointer → ℕ → Option (ℕ × ℕ) × CdrReader → Option BytePointer × CdrReader
finish_bytes destination size (Option.none, r) = (Option.none, r)
finish_bytes destination size (Option.some (start, end), r) = (
  Option.some
      (if size != 0 then copy_to destination 0 (bytes_from r.buffer start size) else destination),
  record r { offset = end },
)

unfoldable pub read_bytes : CdrReader → BytePointer → ℕ → Option BytePointer × CdrReader
read_bytes r destination size =
    if is_null destination && size != 0
    then (Option.none, fail r CdrError.invalid_argument)
    else finish_bytes destination size (locate r 1 size)

-- The string of `serialized_length` bytes with its NUL from `data_start` on. The value is the index
-- of its first character and the number of characters.
unfoldable pub string_view_at : CdrReader → ℕ → ℕ → ℕ → Option (ℕ × ℕ) × CdrReader
string_view_at r max_characters serialized_length data_start =
    if serialized_length == 0
    then (Option.none, fail r CdrError.invalid_data)
    else if ltb max_characters (serialized_length - 1)
    then (Option.none, fail r CdrError.bound_exceeded)
    else if ltb r.size data_start || ltb (r.size - data_start) serialized_length
    then (Option.none, fail r CdrError.underflow)
    else if byte_at r.buffer (add64 data_start (serialized_length - 1)) != 0
    then (Option.none, fail r CdrError.invalid_data)
    else (
      Option.some (data_start, serialized_length - 1),
      record r { offset = add64 data_start serialized_length },
    )

abbrev pub finish_string_view : ℕ → Option (ℕ × ℕ) × CdrReader → Option (ℕ × ℕ) × CdrReader
finish_string_view max_characters (Option.none, r) = (Option.none, r)
finish_string_view max_characters (Option.some (length_start, data_start), r) =
    string_view_at r max_characters (load_integral r.byte_order length_start 4 r.buffer) data_start

unfoldable pub read_string_view : CdrReader → ℕ → Option (ℕ × ℕ) × CdrReader
read_string_view r max_characters = finish_string_view max_characters (locate r 4 4)

unfoldable pub string_at :
    CdrReader → BytePointer → ℕ → ℕ → ℕ → ℕ → Option (BytePointer × ℕ) × CdrReader
string_at r destination destination_capacity max_characters serialized_length data_start =
    if serialized_length == 0
    then (Option.none, fail r CdrError.invalid_data)
    else if ltb max_characters (serialized_length - 1)
    then (Option.none, fail r CdrError.bound_exceeded)
    else if ltb destination_capacity serialized_length
    then (Option.none, fail r CdrError.bound_exceeded)
    else if ltb r.size data_start || ltb (r.size - data_start) serialized_length
    then (Option.none, fail r CdrError.underflow)
    else if byte_at r.buffer (sub64 (add64 data_start serialized_length) 1) != 0
    then (Option.none, fail r CdrError.invalid_data)
    else (
      Option.some (
        copy_to destination 0 (bytes_from r.buffer data_start serialized_length),
        serialized_length - 1,
      ),
      record r { offset = add64 data_start serialized_length },
    )

abbrev pub finish_string :
    BytePointer → ℕ → ℕ → Option (ℕ × ℕ) × CdrReader → Option (BytePointer × ℕ) × CdrReader
finish_string destination destination_capacity max_characters (Option.none, r) = (Option.none, r)
finish_string destination destination_capacity max_characters
      (Option.some (length_start, data_start), r) =
    string_at r destination destination_capacity max_characters
      (load_integral r.byte_order length_start 4 r.buffer) data_start

-- The value is the memory behind the destination after the copy, and the number of characters.
unfoldable pub read_string : CdrReader → BytePointer → ℕ → ℕ → Option (BytePointer × ℕ) × CdrReader
read_string r destination destination_capacity max_characters =
    if is_null destination && destination_capacity != 0
    then (Option.none, fail r CdrError.invalid_argument)
    else finish_string destination destination_capacity max_characters (locate r 4 4)
