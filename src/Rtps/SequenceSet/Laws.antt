-- ===== src/Rtps/SequenceSet/Laws.antt =====
-- The bitmap behaves as a set of offsets.
use open_rtdds.Prelude.{
  ℕ, ◌+◌, ◌-◌, ◌/◌, ◌%◌, ◌^◌, ◌≤◌, ◌<◌, ◌≡◌, ◌≢◌, ◌↔◌, ap, true, false, arith, ◌==◌, ◌||◌, length,
  get_or, bit_or, length-set, get_or-set_self, get_or-set_ne, get_or-replicate, ℕ_discrete,
}
use open_rtdds.Prelude.Bits.{digit, digit-set, bit_test, digit-zero}
use open_rtdds.Rtps.SequenceSet.{SequenceNumberSet, reset, set_bit, test_bit, bit_mask}

-- The bitmap has room for every offset.
pub record IsValid (s : SequenceNumberSet) : Type 0 where
  pub bits_le : s.num_bits ≤ 256
  pub words : length s.bitmap ≡ 8

pub set_bit-IsValid : {s : SequenceNumberSet} (i : ℕ) → IsValid s → IsValid (set_bit s i).1
unfolding set_bit
set_bit-IsValid {s} i v =
    ground (arith, length-set s.bitmap (i / 32) (bit_or (get_or s.bitmap (i / 32) 0) (bit_mask i)))

pub reset-IsValid : {s : SequenceNumberSet} (b n : ℕ) → IsValid s → IsValid (reset s b n).1
unfolding reset
reset-IsValid b n v = ground arith

test_bit-digit :
    (s : SequenceNumberSet) (j : ℕ)
    → j < s.num_bits
    → test_bit s j ≡ (digit (get_or s.bitmap (j / 32) 0) (31 - j % 32) == 1)
unfolding test_bit
test_bit-digit s j h = ground (arith, bit_test (31 - j % 32) (get_or s.bitmap (j / 32) 0))

-- `set` adds one offset, if it is in range, and changes no other.
pub test_bit-set_bit :
    {s : SequenceNumberSet} (i j : ℕ)
    → IsValid s
    → i < s.num_bits
    → j < s.num_bits
    → test_bit (set_bit s i).1 j ≡ (i == j || test_bit s j)
unfolding set_bit
test_bit-set_bit {s} i j v hi hj = elim (ℕ_discrete (i / 32) (j / 32)) [
  | yes e ↦ ground (
    arith,
    test_bit-digit (set_bit s i).1 j,
    test_bit-digit s j hj,
    get_or-set_self s.bitmap (i / 32) (bit_or (get_or s.bitmap (i / 32) 0) (bit_mask i)) 0,
    ap (λ w. get_or s.bitmap w 0) e,
    ap (λ w. get_or (set_bit s i).1.bitmap w 0) e,
    digit-set (31 - i % 32) (31 - j % 32) (get_or s.bitmap (i / 32) 0),
  )
  | no ne ↦ ground (
    arith,
    test_bit-digit (set_bit s i).1 j,
    test_bit-digit s j hj,
    get_or-set_ne s.bitmap (i / 32) (j / 32) (bit_or (get_or s.bitmap (i / 32) 0) (bit_mask i)) 0
        ne,
  )
]

-- What a successful `reset` gives: the empty set at the base. It fails on a base that is no
-- sequence number, on too many bits, and where the last number would pass 2 ^ 63 - 1.
pub reset_lem :
    (s : SequenceNumberSet) (b n : ℕ)
    → b ≢ 0
    → n ≤ 256
    → b + n ≤ 2 ^ 63
    → b < 2 ^ 63
    → ((reset s b n).0 ≡ true)
      × ((reset s b n).1.bitmap_base ≡ b)
      × ((reset s b n).1.num_bits ≡ n)
      × ((j : ℕ) → test_bit (reset s b n).1 j ≡ false)
unfolding reset test_bit
reset_lem s b n h k le lt = (
  ground arith,
  ground arith,
  ground arith,
  λ j. ground (
    arith,
    get_or-replicate {A = ℕ} 8 (j / 32) 0,
    bit_test (31 - j % 32) 0,
    digit-zero (31 - j % 32),
  ),
)

-- `reset` succeeds exactly on a sequence number and a count of at most 256 bits such that the last
-- number is at most 2 ^ 63 - 1, and a failure changes nothing.
pub reset_accepts :
    (s : SequenceNumberSet) (b n : ℕ)
    → (((reset s b n).0 ≡ true) ↔ ((b ≢ 0) × (n ≤ 256) × (b < 2 ^ 63) × (b + n ≤ 2 ^ 63)))
      × ((reset s b n).0 ≡ false → (reset s b n).1 ≡ s)
unfolding reset
reset_accepts s b n = ((λ h. ground arith, λ h. ground arith), λ h. ground arith)

pub num_bits-set_bit :
    (s : SequenceNumberSet) (i : ℕ)
    → ((set_bit s i).1.num_bits ≡ s.num_bits) × ((set_bit s i).1.bitmap_base ≡ s.bitmap_base)
unfolding set_bit
num_bits-set_bit s i = ground arith
