-- ===== src/Rtps/Codec/BitmapTrip.antt =====
-- The loops that read a bitmap: bit by bit they make the set that the words stand for.
use open_rtdds.Prelude.{
  ℕ, zero, suc, ◌+◌, ◌-◌, ◌*◌, ◌/◌, ◌%◌, ◌^◌, ◌≤◌, ◌<◌, ◌≡◌, refl, ap, ◌∙◌, arith, Bool, ◌&&◌, ◌||◌,
  ltb, leb, ◌==◌, ◌!=◌, if◌then◌else◌, bit_and, BytePointer, Bool-cases, inl, inr, ℕ_discrete,
}
use open_rtdds.Rtps.Types.{ByteOrder}
use open_rtdds.Rtps.SequenceSet.{SequenceNumberSet, set_bit, test_bit}
use open_rtdds.Rtps.SequenceSet.Laws.{IsValid, set_bit-IsValid, test_bit-set_bit}
use open_rtdds.Rtps.Wire.{read_uint32}
use open_rtdds.Rtps.Codec.Parsing.{read_bits, read_words}

-- A bit of a word, by the number of the bit in the set.
abbrev pub bit_of : ℕ → ℕ → Bool
bit_of w j = bit_and w (2 ^ (31 - j % 32)) != 0

abbrev pub within : ℕ → ℕ → ℕ → Bool
within start size j = leb start j && ltb j (start + size)

-- A set with the same base and size that has the bits of `bits` added.
pub record Adds (s t : SequenceNumberSet) (bits : ℕ → Bool) : Type 0 where
  pub valid : IsValid t
  pub base_eq : t.bitmap_base ≡ s.bitmap_base
  pub size_eq : t.num_bits ≡ s.num_bits
  pub test_eq : (j : ℕ) → j < s.num_bits → test_bit t j ≡ (test_bit s j || bits j)

abbrev bit_step : ℕ → ℕ → ℕ → SequenceNumberSet → SequenceNumberSet
bit_step bit_index word_index w s =
    if ltb (word_index * 32 + bit_index) s.num_bits && bit_and w (2 ^ (31 - bit_index)) != 0
    then (set_bit s (word_index * 32 + bit_index)).1
    else s

set_bit_keeps :
    (s : SequenceNumberSet) (i : ℕ)
    → i < s.num_bits
    → ((set_bit s i).1.bitmap_base ≡ s.bitmap_base) × ((set_bit s i).1.num_bits ≡ s.num_bits)
unfolding set_bit
set_bit_keeps s i lt = ground arith

set_bit-Adds :
    (s : SequenceNumberSet) (i : ℕ)
    → IsValid s
    → i < s.num_bits
    → Adds s (set_bit s i).1 (λ j. i == j)
set_bit-Adds s i v lt = record {
  valid = set_bit-IsValid i v;
  base_eq = (set_bit_keeps s i lt).0;
  size_eq = (set_bit_keeps s i lt).1;
  test_eq = λ j h. test_bit-set_bit i j v lt h ∙ or_swap (i == j) (test_bit s j);
}
  where
    or_swap : (a b : Bool) → (a || b) ≡ (b || a)
    or_swap a b = ground arith

bit_step-Adds :
    (s : SequenceNumberSet) (bit_index word_index w : ℕ)
    → bit_index < 32
    → IsValid s
    → Adds s
        (bit_step bit_index word_index w s)
        (λ j. word_index * 32 + bit_index == j && bit_of w j)
bit_step-Adds s bit_index word_index w small v =
    let i = word_index * 32 + bit_index in
    let place : i % 32 ≡ bit_index = omega arith in
    elim (Bool-cases (ltb i s.num_bits && bit_and w (2 ^ (31 - bit_index)) != 0)) [
      | inl sets ↦
          let h = set_bit-Adds s i v (ground (arith, sets)) in
          rw sets (record {
            valid = h.valid;
            base_eq = h.base_eq;
            size_eq = h.size_eq;
            test_eq = λ j lt. h.test_eq j lt ∙ elim (ℕ_discrete i j) [
              | yes e ↦ ground (
                arith,
                sets,
                ap (λ k. bit_and w (2 ^ (31 - k % 32))) e,
                ap (λ k. bit_and w (2 ^ (31 - k))) place,
              )
              | no ne ↦ ground (arith, ne)
            ];
          })
      | inr skips ↦ rw skips (record {
        valid = v;
        base_eq = refl;
        size_eq = refl;
        test_eq = λ j lt. elim (ℕ_discrete i j) [
          | yes e ↦ ground (
            arith,
            skips,
            lt,
            ap (λ k. bit_and w (2 ^ (31 - k % 32))) e,
            ap (λ k. bit_and w (2 ^ (31 - k))) place,
          )
          | no ne ↦ ground (arith, ne)
        ];
      })
    ]

-- One addition after another.
Adds-trans :
    (s t u : SequenceNumberSet) (f g h : ℕ → Bool)
    → Adds s t f
    → Adds t u g
    → ((j : ℕ) → (f j || g j) ≡ h j)
    → Adds s u h
Adds-trans s t u f g h p q both = record {
  valid = q.valid;
  base_eq = q.base_eq ∙ p.base_eq;
  size_eq = q.size_eq ∙ p.size_eq;
  test_eq = λ j lt.
      let first = p.test_eq j lt in
      let second = q.test_eq j (omega (arith, p.size_eq)) in ground (arith, first, second, both j);
}

pub read_bits-Adds :
    (rounds bit_index word_index w : ℕ) (s : SequenceNumberSet)
    → bit_index + rounds ≤ 32
    → IsValid s
    → Adds s
        (read_bits rounds bit_index word_index w s)
        (λ j. within (word_index * 32 + bit_index) rounds j && bit_of w j)
unfolding read_bits
read_bits-Adds zero bit_index word_index w s le v = record {
  valid = v;
  base_eq = refl;
  size_eq = refl;
  test_eq = λ j lt. ground arith;
}
read_bits-Adds (suc rounds) bit_index word_index w s le v =
    let one = bit_step-Adds s bit_index word_index w (omega arith) v in
    let rest =
      read_bits-Adds rounds (suc bit_index) word_index w (bit_step bit_index word_index w s)
        (omega arith) one.valid in
    Adds-trans s (bit_step bit_index word_index w s) _ _ _ _ one rest (λ j. ground arith)

pub read_words-Adds :
    (rounds word_index : ℕ) (content : BytePointer) (order : ByteOrder) (s : SequenceNumberSet)
    → IsValid s
    → Adds s (read_words rounds word_index content order s) (λ j.
      within (word_index * 32) (rounds * 32) j
      && bit_of (read_uint32 content (20 + 4 * (j / 32)) order) j)
unfolding read_words
read_words-Adds zero word_index content order s v = record {
  valid = v;
  base_eq = refl;
  size_eq = refl;
  test_eq = λ j lt. ground arith;
}
read_words-Adds (suc rounds) word_index content order s v =
    let w = read_uint32 content (20 + 4 * word_index) order in
    let one = read_bits-Adds 32 0 word_index w s (omega arith) v in
    let rest =
      read_words-Adds rounds (suc word_index) content order (read_bits 32 0 word_index w s)
        one.valid in
    Adds-trans s (read_bits 32 0 word_index w s) _ _ _ _ one rest (λ j.
      elim (ℕ_discrete (j / 32) word_index) [
        | yes e ↦ ground (arith, ap (λ k. read_uint32 content (20 + 4 * k) order) e)
        | no ne ↦ ground (arith, ne)
      ])
