-- ===== src/Rtps/ControlCount.antt =====
-- Control counts of src/rtps/reliability_state.cpp. An int32_t is its bit pattern, below 2 ^ 32.
use open_rtdds.Prelude.{
  ℕ, ◌+◌, ◌%◌, ◌^◌, ◌<◌, ◌≡◌, Bool, true, false, ◌&&◌, arith, ltb, ◌!=◌, add32, sub32, suc, zero,
}

unfoldable pub control_count_is_newer : ℕ → ℕ → Bool
control_count_is_newer candidate reference =
    sub32 candidate reference != 0 && ltb (sub32 candidate reference) 0x8000_0000

unfoldable pub next_control_count : ℕ → ℕ
next_control_count count = add32 count 1

pub next_control_count-lt : (n : ℕ) → next_control_count n < 2 ^ 32
unfolding next_control_count
next_control_count-lt n = omega arith

abbrev pub IsInt32 : ℕ → Type 0
IsInt32 c = c < 2 ^ 32

-- The count after `k` messages.
abbrev pub count_after : ℕ → ℕ → ℕ
count_after zero c = c
count_after (suc k) c = next_control_count (count_after k c)

pub count_after_eq : (k c : ℕ) → IsInt32 c → count_after k c ≡ (c + k) % 2 ^ 32
unfolding next_control_count
count_after_eq zero c h = omega arith
count_after_eq (suc k) c h = omega (arith, count_after_eq k c h)

-- The count of a later message is newer than that of an earlier one, across the wrap from
-- 2 ^ 31 - 1 to -2 ^ 31 too, as long as fewer than 2 ^ 31 messages lie between them; and the earlier
-- count, repeated or reordered, is then not newer than the later one.
pub count_after-newer :
    (k c : ℕ)
    → IsInt32 c
    → 0 < k
    → k < 2 ^ 31
    → (control_count_is_newer (count_after k c) c ≡ true)
      × (control_count_is_newer c (count_after k c) ≡ false)
unfolding control_count_is_newer
count_after-newer k c h pos lt =
    (ground (arith, count_after_eq k c h), ground (arith, count_after_eq k c h))
