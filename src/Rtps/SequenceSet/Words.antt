-- ===== src/Rtps/SequenceSet/Words.antt =====
-- The words of a bitmap are integers of 32 bits.
use open_rtdds.Prelude.{
  ℕ, ◌-◌, ◌/◌, ◌%◌, ◌^◌, ◌≤◌, ◌<◌, arith, get_or, bit_or, get_or-set_self, get_or-set_ne,
  get_or-replicate, ℕ_discrete, set, ap,
}
use native.Mathlib.Nat.{pow-le-pow_right}
use open_rtdds.Prelude.Bits.{bit_or-lt}
use open_rtdds.Rtps.SequenceSet.{SequenceNumberSet, reset, set_bit, bit_mask}
use open_rtdds.Rtps.SequenceSet.Laws.{IsValid}

abbrev pub Small : SequenceNumberSet → Type 0
Small s = (i : ℕ) → get_or s.bitmap i 0 < 2 ^ 32

bit_mask-lt : (i : ℕ) → bit_mask i < 2 ^ 32
bit_mask-lt i =
    let le : 2 ^ (31 - i % 32) ≤ 2 ^ 31 =
      pow-le-pow_right {n = 2} (omega arith) {i = 31 - i % 32} {j = 31} (omega arith) in
    omega (arith, le)

pub set_bit-Small : {s : SequenceNumberSet} (i : ℕ) → IsValid s → Small s → Small (set_bit s i).1
unfolding set_bit
set_bit-Small {s} i v small j =
    let w = bit_or (get_or s.bitmap (i / 32) 0) (bit_mask i) in
    let w_small =
      bit_or-lt 32 (get_or s.bitmap (i / 32) 0) (bit_mask i) (small (i / 32)) (bit_mask-lt i) in
    elim (ℕ_discrete (i / 32) j) [
      | yes e ↦ ground (
        arith,
        small j,
        w_small,
        ap (λ k. get_or (set s.bitmap (i / 32) w) k 0) e,
        get_or-set_self s.bitmap (i / 32) w 0,
      )
      | no ne ↦ ground (arith, small j, get_or-set_ne s.bitmap (i / 32) j w 0 ne)
    ]

pub reset-Small : (s : SequenceNumberSet) (b n : ℕ) → Small s → Small (reset s b n).1
unfolding reset
reset-Small s b n small i = ground (arith, small i, get_or-replicate {A = ℕ} 8 i 0)
