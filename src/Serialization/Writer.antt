-- ===== src/Serialization/Writer.antt =====
-- CdrWriter of include/openrtdds/serialization/cdr.hpp and src/serialization/cdr.cpp. Operations
-- return the answer and the new writer. A signed integer and a floating-point number is its bit
-- pattern.
use open_rtdds.Prelude.{
  ℕ, zero, suc, ◌-◌, ◌%◌, ◌^◌, Bool, true, false, ◌&&◌, ◌||◌, not, Option, ltb, leb, ◌!=◌,
  if◌then◌else◌, add64, size_max, BytePointer,
}
use open_rtdds.Core.History.{is_null, pointed}
use open_rtdds.Rtps.Types.{ByteOrder, big_endian, little_endian}
use open_rtdds.Serialization.Cdr.{
  CdrError, is_good, encapsulation_size, aligned_position, put_byte, copy_to,
}
use open_rtdds.Serialization.Integral.{store_integral}

pub record CdrWriter : Type 0 where
  pub buffer : BytePointer
  pub capacity : ℕ
  pub offset : ℕ
  pub origin : ℕ
  pub byte_order : ByteOrder
  pub error : CdrError
  pub initialized : Bool

unfoldable pub init : BytePointer → ℕ → CdrWriter
init buffer capacity = record {
  buffer = buffer;
  capacity = capacity;
  offset = 0;
  origin = 0;
  byte_order = little_endian;
  error = if is_null buffer && capacity != 0 then CdrError.invalid_argument else CdrError.none;
  initialized = false;
}

-- Only the first error is kept.
abbrev pub fail : CdrWriter → CdrError → CdrWriter
fail w error = record w { error = if is_good w.error then error else w.error }

abbrev pub restarted : CdrWriter → ByteOrder → CdrWriter
restarted w order = record w {
  offset = 0;
  origin = 0;
  byte_order = order;
  initialized = false;
  error = CdrError.none;
}

abbrev pub order_byte : ByteOrder → ℕ
order_byte little_endian = 1
order_byte big_endian = 0

unfoldable pub begin : CdrWriter → ByteOrder → Bool × CdrWriter
begin w order =
    if is_null w.buffer && w.capacity != 0
    then (false, fail (restarted w order) CdrError.invalid_argument)
    else if ltb w.capacity encapsulation_size
    then (false, fail (restarted w order) CdrError.overflow)
    else (
      true,
      record (restarted w order) {
        buffer =
            put_byte (put_byte (put_byte (put_byte w.buffer 0 0) 1 (order_byte order)) 2 0) 3 0;
        offset = encapsulation_size;
        origin = encapsulation_size;
        initialized = true;
      },
    )

-- The loop that zeroes the padding, over the rounds that are left.
abbrev pub zero_loop : ℕ → ℕ → BytePointer → BytePointer
zero_loop zero index buffer = buffer
zero_loop (suc rounds) index buffer = zero_loop rounds (suc index) (put_byte buffer index 0)

-- `reserve` after the position is computed.
abbrev pub reserve_at : CdrWriter → ℕ → Option ℕ → Option ℕ × CdrWriter
reserve_at w width Option.none = (Option.none, fail w CdrError.overflow)
reserve_at w width (Option.some start) =
    if ltb w.capacity start || ltb (w.capacity - start) width
    then (Option.none, fail w CdrError.overflow)
    else (Option.some start, record w { buffer = zero_loop (start - w.offset) w.offset w.buffer })

-- The start of the reserved bytes, or `none` for the answer `false`.
unfoldable pub reserve : CdrWriter → ℕ → ℕ → Option ℕ × CdrWriter
reserve w alignment width =
    if not (is_good w.error)
    then (Option.none, w)
    else if not w.initialized
    then (Option.none, fail w CdrError.not_initialized)
    else reserve_at w width (aligned_position w.offset w.origin alignment)

abbrev pub finish_integral : ℕ → ℕ → Option ℕ × CdrWriter → Bool × CdrWriter
finish_integral value width (Option.none, w) = (false, w)
finish_integral value width (Option.some start, w) = (
  true,
  record w {
    buffer = store_integral w.byte_order start value width w.buffer;
    offset = add64 start width;
  },
)

unfoldable pub write_integral : CdrWriter → ℕ → ℕ → ℕ → Bool × CdrWriter
write_integral w value width alignment = finish_integral value width (reserve w alignment width)

abbrev pub write_uint8 : CdrWriter → ℕ → Bool × CdrWriter
write_uint8 w value = write_integral w value 1 1

abbrev pub write_uint16 : CdrWriter → ℕ → Bool × CdrWriter
write_uint16 w value = write_integral w value 2 2

abbrev pub write_uint32 : CdrWriter → ℕ → Bool × CdrWriter
write_uint32 w value = write_integral w value 4 4

abbrev pub write_uint64 : CdrWriter → ℕ → Bool × CdrWriter
write_uint64 w value = write_integral w value 8 8

abbrev pub write_bool : CdrWriter → Bool → Bool × CdrWriter
write_bool w value = write_uint8 w (if value then 1 else 0)

abbrev pub write_int16 : CdrWriter → ℕ → Bool × CdrWriter
write_int16 w value = write_uint16 w value

abbrev pub write_int32 : CdrWriter → ℕ → Bool × CdrWriter
write_int32 w value = write_uint32 w value

abbrev pub write_int64 : CdrWriter → ℕ → Bool × CdrWriter
write_int64 w value = write_uint64 w value

abbrev pub write_float32 : CdrWriter → ℕ → Bool × CdrWriter
write_float32 w bits = write_uint32 w bits

abbrev pub write_float64 : CdrWriter → ℕ → Bool × CdrWriter
write_float64 w bits = write_uint64 w bits

abbrev pub finish_bytes : BytePointer → ℕ → Option ℕ × CdrWriter → Bool × CdrWriter
finish_bytes source size (Option.none, w) = (false, w)
finish_bytes source size (Option.some start, w) = (
  true,
  record w {
    buffer = if size != 0 then copy_to w.buffer start (pointed source size) else w.buffer;
    offset = add64 start size;
  },
)

unfoldable pub write_bytes : CdrWriter → BytePointer → ℕ → Bool × CdrWriter
write_bytes w source size =
    if is_null source && size != 0
    then (false, fail w CdrError.invalid_argument)
    else finish_bytes source size (reserve w 1 size)

-- `length` excludes the NUL that ends the string.
abbrev pub finish_string : BytePointer → ℕ → Option ℕ × CdrWriter → Bool × CdrWriter
finish_string value length (Option.none, w) = (false, w)
finish_string value length (Option.some start, w) =
    let counted = store_integral w.byte_order start (add64 length 1 % 2 ^ 32) 4 w.buffer in
    (
      true,
      record w {
        buffer =
            put_byte
              (if length != 0
                then copy_to counted (add64 start 4) (pointed value length)
                else counted)
              (add64 (add64 start 4) length) 0;
        offset = add64 (add64 start 4) (add64 length 1);
      },
    )

unfoldable pub write_string : CdrWriter → BytePointer → ℕ → ℕ → Bool × CdrWriter
write_string w value length max_characters =
    if is_null value && length != 0
    then (false, fail w CdrError.invalid_argument)
    else if ltb max_characters length
    then (false, fail w CdrError.bound_exceeded)
    else if leb (2 ^ 32 - 1) length
    then (false, fail w CdrError.bound_exceeded)
    else if ltb (size_max - 4) (add64 length 1)
    then (false, fail w CdrError.bound_exceeded)
    else finish_string value length (reserve w 4 (add64 4 (add64 length 1)))
