-- ===== src/Rtps/SequenceSet.antt =====
-- SequenceNumberSet of include/openrtdds/rtps/reliability_messages.hpp and
-- src/rtps/reliability_messages.cpp: a base and a bitmap of at most 256 bits in eight words, the
-- first number in the highest bit of the first word.
pub mod Laws
pub mod Words
use open_rtdds.Prelude.{
  ℕ, ◌+◌, ◌-◌, ◌/◌, ◌%◌, ◌^◌, Bool, true, false, ◌&&◌, ◌||◌, not, List, ltb, leb, ◌==◌, ◌!=◌,
  if◌then◌else◌, get_or, set, replicate, bit_and, bit_or, int64_max, add32,
}

abbrev pub maximum_bits : ℕ
maximum_bits = 256

abbrev pub maximum_words : ℕ
maximum_words = 8

pub record SequenceNumberSet : Type 0 where
  pub bitmap_base : ℕ
  pub num_bits : ℕ
  pub bitmap : List ℕ

abbrev pub empty_set : SequenceNumberSet
empty_set = record { bitmap_base = 1; num_bits = 0; bitmap = replicate maximum_words 0 }

abbrev pub valid_sequence_number : ℕ → Bool
valid_sequence_number n = n != 0 && leb n int64_max

abbrev pub word_count : SequenceNumberSet → ℕ
word_count s = add32 s.num_bits 31 / 32

unfoldable pub word : SequenceNumberSet → ℕ → ℕ
word s index = if ltb index (word_count s) then get_or s.bitmap index 0 else 0

-- `num_bits - 1` is taken only where `num_bits` is not 0.
unfoldable pub reset : SequenceNumberSet → ℕ → ℕ → Bool × SequenceNumberSet
reset s base bits =
    if not (valid_sequence_number base) || ltb maximum_bits bits
    then (false, s)
    else if bits != 0 && ltb (int64_max - (bits - 1)) base
    then (false, s)
    else (true, record { bitmap_base = base; num_bits = bits; bitmap = replicate maximum_words 0 })

abbrev pub bit_mask : ℕ → ℕ
bit_mask offset = 2 ^ (31 - offset % 32)

unfoldable pub set_bit : SequenceNumberSet → ℕ → Bool × SequenceNumberSet
set_bit s offset = if leb s.num_bits offset then (false, s) else (
  true,
  record s {
    bitmap =
        set s.bitmap (offset / 32) (bit_or (get_or s.bitmap (offset / 32) 0) (bit_mask offset));
  },
)

unfoldable pub test_bit : SequenceNumberSet → ℕ → Bool
test_bit s offset =
    if leb s.num_bits offset
    then false
    else bit_and (get_or s.bitmap (offset / 32) 0) (bit_mask offset) != 0
