-- ===== src/Rtps/Tests.antt =====
-- Concrete control counts and sequence number sets.
use open_rtdds.Prelude.{◌≡◌, ◌||◌, ◌==◌, refl, true, false, arith}
use open_rtdds.Rtps.ControlCount.{control_count_is_newer, count_after, count_after-newer}
use open_rtdds.Rtps.SequenceSet.{SequenceNumberSet, empty_set, reset, set_bit, test_bit}
use open_rtdds.Rtps.SequenceSet.Laws.{reset_lem, IsValid, reset-IsValid, test_bit-set_bit}

-- The count passes from 2 ^ 31 - 1 to -2 ^ 31.
count_after-newer_example :
    (control_count_is_newer (count_after 1 0x7fff_ffff) 0x7fff_ffff ≡ true)
    × (control_count_is_newer 0x7fff_ffff (count_after 1 0x7fff_ffff) ≡ false)
count_after-newer_example =
    count_after-newer 1 0x7fff_ffff (omega arith) (omega arith) (omega arith)

abbrev forty : SequenceNumberSet
forty = (reset empty_set 5 40).1

forty-IsValid : IsValid forty
forty-IsValid = reset-IsValid 5 40 (record { bits_le = omega arith; words = refl })

forty_bits : forty.num_bits ≡ 40
forty_bits = (reset_lem empty_set 5 40 (omega arith) (omega arith) (omega arith) (omega arith)).2

test_bit-set_bit_example : test_bit (set_bit forty 33).1 34 ≡ (33 == 34 || test_bit forty 34)
test_bit-set_bit_example =
    test_bit-set_bit 33 34 forty-IsValid (omega (arith, forty_bits)) (omega (arith, forty_bits))
