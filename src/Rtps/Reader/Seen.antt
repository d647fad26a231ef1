-- ===== src/Rtps/Reader/Seen.antt =====
-- The numbers that a reader has seen: those below its base, and those flagged in the window.
use open_rtdds.Prelude.{
  ℕ, zero, suc, ◌+◌, ◌-◌, ◌%◌, ◌≤◌, ◌<◌, ◌≡◌, ◌≢◌, refl, ap, ◌∙◌, Bool, true, false, List, [], ◌∷◌,
  arith, ltb, if◌then◌else◌, length, set, length-set, length-replicate, get_or-set_self,
  get_or-set_ne, get_or-replicate, int64_max, add64, dec_lt, ℕ_discrete,
}
use open_rtdds.Prelude.Modular.{mod-ne, mod-add_left}
use native.Mathlib.Nat.{mod-eq_of_lt, mod-lt, mod-eq-sub-mod}
use open_rtdds.Rtps.Reader.{
  ReliableReader, ReliableReaderConfig, flag, slot_of, init, valid_state_sequence,
}

abbrev pub seen : ℕ → ReliableReader → ℕ → Bool
seen window r t =
    if ltb t r.base
    then true
    else if ltb (t - r.base) window
    then flag r.received (slot_of window r (t - r.base))
    else false

pub record IsValid (window : ℕ) (r : ReliableReader) : Type 0 where
  pub window_pos : 0 < window
  pub window_le : window ≤ 256
  pub storage : length r.received ≡ window
  pub index_lt : r.base_index < window
  pub base_pos : 0 < r.base
  pub base_le : r.base ≤ int64_max
  pub flagged :
      (k : ℕ) → k < window → flag r.received (slot_of window r k) ≡ true → r.base + k < int64_max

abbrev pub count_true : List Bool → ℕ
count_true [] = 0
count_true (true ∷ bs) = suc (count_true bs)
count_true (false ∷ bs) = count_true bs

pub count_true-le : (bs : List Bool) → count_true bs ≤ length bs
count_true-le [] = omega arith
count_true-le (true ∷ bs) = omega (arith, count_true-le bs)
count_true-le (false ∷ bs) = omega (arith, count_true-le bs)

pub count_true-clear :
    (bs : List Bool) (i : ℕ) → flag bs i ≡ true → suc (count_true (set bs i false)) ≡ count_true bs
count_true-clear [] i e = cc
count_true-clear (true ∷ bs) zero e = refl
count_true-clear (false ∷ bs) zero e = cc
count_true-clear (true ∷ bs) (suc i) e = ap suc (count_true-clear bs i e)
count_true-clear (false ∷ bs) (suc i) e = count_true-clear bs i e

module _ {window : ℕ} {r : ReliableReader} (v : IsValid window r) where
  pub slot_of_eq : (k : ℕ) → k ≤ window → slot_of window r k ≡ (r.base_index + k) % window
  slot_of_eq k h = ap (λ n. n % window) (omega arith)

  pub slot_of-zero : slot_of window r 0 ≡ r.base_index
  slot_of-zero = ground (arith, slot_of_eq 0, mod-eq_of_lt {n = r.base_index} v.index_lt)

  -- Two offsets in the window have different slots.
  pub slot_of-ne : (j k : ℕ) → j < k → k < window → slot_of window r j ≢ slot_of window r k
  slot_of-ne j k h lt =
      ground
        (arith, slot_of_eq j, slot_of_eq k, mod-ne (r.base_index + j) (r.base_index + k) window)

mod-add_right_self : (a d : ℕ) → a < d → (a + d) % d ≡ a
mod-add_right_self a d h =
    mod-eq-sub-mod {n = a + d} {m = d} (omega arith)
    ∙ ap (λ n. n % d) {x = a + d - d} {y = a} (omega arith)
    ∙ mod-eq_of_lt h

-- One round of `slide`.
abbrev pub advanced : ℕ → ReliableReader → ReliableReader
advanced window r = record r {
  received = set r.received r.base_index false;
  base_index = add64 r.base_index 1 % window;
  base = add64 r.base 1;
}

module _ {window : ℕ} {r : ReliableReader} (v : IsValid window r)
    (head : flag r.received r.base_index ≡ true) where
  pub base_lt : r.base < int64_max
  base_lt = omega (arith, v.flagged 0 v.window_pos (rw (slot_of-zero v) head))

  -- The slots move down by one offset.
  pub slot_of-advanced :
      (k : ℕ) → k < window → slot_of window (advanced window r) k ≡ (r.base_index + suc k) % window
  slot_of-advanced k lt =
      ap (λ n. n % window) (no_wrap)
      ∙ mod-add_left (r.base_index + 1) k window
      ∙ ap (λ n. n % window) (omega arith)
    where
      no_wrap : add64 (add64 r.base_index 1 % window) k ≡ (r.base_index + 1) % window + k
      no_wrap =
          ap (λ n. add64 (n % window) k) {y = r.base_index + 1} (omega arith)
          ∙ omega (arith, mod-lt (r.base_index + 1) v.window_pos)

  pub flag-advanced :
      (k : ℕ)
      → k < window
      → flag (set r.received r.base_index false) (slot_of window (advanced window r) k)
        ≡ (if ltb (suc k) window then flag r.received (slot_of window r (suc k)) else false)
  flag-advanced k lt = elim (dec_lt (suc k) window) [
    | yes p ↦ ground (
      arith,
      slot_of-advanced k lt,
      slot_of_eq v (suc k) (omega arith),
      get_or-set_ne r.received r.base_index ((r.base_index + suc k) % window) false false (λ e.
          mod-ne r.base_index (r.base_index + suc k) window (omega arith) (omega arith)
            (mod-eq_of_lt v.index_lt ∙ e)),
    )
    | no p ↦ ground (
      arith,
      slot_of-advanced k lt,
      turned k (omega arith),
      get_or-set_self r.received r.base_index false false (omega arith),
    )
  ]
    where
      turned : (k : ℕ) → suc k ≡ window → (r.base_index + suc k) % window ≡ r.base_index
      turned k e = rw e (mod-add_right_self r.base_index window v.index_lt)

  pub advanced-IsValid : IsValid window (advanced window r)
  advanced-IsValid = record {
    window_pos = v.window_pos;
    window_le = v.window_le;
    storage = length-set r.received r.base_index false ∙ v.storage;
    index_lt = omega arith;
    base_pos = omega (arith, base_lt);
    base_le = omega (arith, base_lt);
    flagged = λ k lt e. ground (arith, base_lt, flag-advanced k lt, v.flagged (suc k));
  }

  pub seen-advanced : (t : ℕ) → seen window (advanced window r) t ≡ seen window r t
  seen-advanced t = elim (dec_lt t r.base) [
    | yes p ↦ ground (arith, base_lt)
    | no p ↦ elim (ℕ_discrete t r.base) [
      | yes e ↦ ground (
        arith,
        base_lt,
        e,
        head,
        slot_of-zero v,
        ap (λ n. slot_of window r (n - r.base)) e,
        ap (λ n. slot_of window r n) {x = t - r.base} {y = 0} (omega arith),
      )
      | no ne ↦ ground (arith, base_lt, flag-advanced (t - r.base - 1))
    ]
  ]

-- A reader starts with nothing seen but what lies below its initial number.
pub init-IsValid :
    (window : ℕ) (config : ReliableReaderConfig)
    → 0 < window
    → window ≤ 256
    → valid_state_sequence config.initial_sequence_number ≡ true
    → IsValid window (init window config)
unfolding init
init-IsValid window config pos le ok = record {
  window_pos = pos;
  window_le = le;
  storage = length-replicate window false;
  index_lt = pos;
  base_pos = ground arith;
  base_le = ground arith;
  flagged = λ k lt e.
      ground (arith, get_or-replicate window (slot_of window (init window config) k) false);
}
