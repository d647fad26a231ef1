-- ===== src/Serialization/Tests.antt =====
-- Concrete positions and failures.
use open_rtdds.Prelude.{◌⊎◌, ℕ, ◌-◌, ◌^◌, ◌≤◌, ◌<◌, ◌≡◌, Option, [], ◌∷◌, arith}
use open_rtdds.Serialization.Cdr.{aligned_position}
use open_rtdds.Serialization.Alignment.{IsLeast, aligned_position_lem}
use open_rtdds.Serialization.Writer.{CdrWriter, init, write_integral, write_bytes, write_string}
use open_rtdds.Serialization.Reader
use open_rtdds.Serialization.Reader.{
  CdrReader, read_integral, read_bool, read_bytes, read_string, read_string_view,
}
use open_rtdds.Serialization.ReadErrors.{read-Stays}
use open_rtdds.Serialization.ReadErrors
use open_rtdds.Serialization.Errors.{write-Kept}
use open_rtdds.Serialization.Errors

-- The last aligned position of 64 bits.
abbrev offset : ℕ
offset = 2 ^ 64 - 4

abbrev origin : ℕ
origin = 4

abbrev exponent : ℕ
exponent = 3

aligned_position_lem_example :
    ((aligned_position offset origin (2 ^ exponent) ≡ Option.none) × (offset < origin))
    ⊎ ((start : ℕ) × IsLeast offset origin (2 ^ exponent) start
        × (origin ≤ offset)
        × (((start < 2 ^ 64) × (aligned_position offset origin (2 ^ exponent) ≡ Option.some start))
            ⊎ ((2 ^ 64 ≤ start) × (aligned_position offset origin (2 ^ exponent) ≡ Option.none))))
aligned_position_lem_example =
    aligned_position_lem offset origin exponent (omega arith) (omega arith) (omega arith)

-- A writer without a buffer, which has an error from the start.
abbrev writer : CdrWriter
writer = init Option.none 2

write-Kept_example :
    Errors.Sticky writer (write_integral writer 7 4 4)
    × Errors.Sticky writer (write_bytes writer (Option.some (5 ∷ [])) 1)
    × Errors.Sticky writer (write_string writer (Option.some (5 ∷ [])) 1 9)
write-Kept_example = write-Kept writer 7 4 4 (Option.some (5 ∷ [])) 1 9

-- Six bytes with the header of a big-endian payload, and a string that is too short.
abbrev reader : CdrReader
reader = (Reader.begin (Reader.init (Option.some (0 ∷ 0 ∷ 0 ∷ 0 ∷ 9 ∷ 9 ∷ [])) 6)).1

read-Stays_example :
    ReadErrors.Sticky reader (read_integral reader 4 4)
    × ReadErrors.Sticky reader (read_bool reader)
    × ReadErrors.Sticky reader (read_bytes reader Option.none 2)
    × ReadErrors.Sticky reader (read_string reader Option.none 0 5)
    × ReadErrors.Sticky reader (read_string_view reader 5)
read-Stays_example = read-Stays reader 4 4 Option.none 2 0 5
