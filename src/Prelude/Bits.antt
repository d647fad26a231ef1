-- ===== src/Prelude/Bits.antt =====
-- Single binary digits of `bit_and` and `bit_or` at variables, from the recursion on digits that
-- the native operations stand for.
use Prim.Native.Nat.{
  ℕ, zero, suc, ◌+◌, ◌*◌, ◌/◌, ◌%◌, ◌^◌, ◌≤◌, ◌<◌, min, max, bit_and, bit_or, digits,
  bit_and-bitwise, bit_or-bitwise,
}
use mathlib.Core.Path.{◌≡◌, refl, ap, ◌∙◌}
use native.Mathlib.Nat.{pow-suc, one-le-pow}
use native.Mathlib.Omega.{arith}
use open_rtdds.Prelude.Tests.{◌==◌, ◌!=◌, if◌then◌else◌}

-- More fuel than the first number changes nothing.
module _ (z : ℕ → ℕ) (f : ℕ → ℕ → ℕ) where
  fuel_irrelevant : (m n a b : ℕ) → a ≤ m → a ≤ n → digits z f m a b ≡ digits z f n a b
  fuel_irrelevant zero zero a b p q = refl
  fuel_irrelevant zero (suc n) zero b p q = refl
  fuel_irrelevant zero (suc n) (suc a) b p q = absurd (omega arith)
  fuel_irrelevant (suc m) zero zero b p q = refl
  fuel_irrelevant (suc m) zero (suc a) b p q = absurd (omega arith)
  fuel_irrelevant (suc m) (suc n) zero b p q = refl
  fuel_irrelevant (suc m) (suc n) (suc a) b p q =
      ap (λ (t : ℕ). t * 2 + f (suc a % 2) (b % 2))
        (fuel_irrelevant m n (suc a / 2) (b / 2) (omega arith) (omega arith))

pub bit_and-halves : (a b : ℕ) → bit_and a b ≡ bit_and (a / 2) (b / 2) * 2 + min (a % 2) (b % 2)
bit_and-halves zero b = omega (arith, bit_and-bitwise 0 b, bit_and-bitwise 0 (b / 2))
bit_and-halves (suc a) b = omega (
  arith,
  bit_and-bitwise (suc a) b,
  bit_and-bitwise (suc a / 2) (b / 2),
  fuel_irrelevant (λ y. 0) min a (suc a / 2) (suc a / 2) (b / 2) (omega arith) (omega arith),
)

pub bit_or-halves : (a b : ℕ) → bit_or a b ≡ bit_or (a / 2) (b / 2) * 2 + max (a % 2) (b % 2)
bit_or-halves zero b = omega (arith, bit_or-bitwise 0 b, bit_or-bitwise 0 (b / 2))
bit_or-halves (suc a) b = omega (
  arith,
  bit_or-bitwise (suc a) b,
  bit_or-bitwise (suc a / 2) (b / 2),
  fuel_irrelevant (λ y. y) max a (suc a / 2) (suc a / 2) (b / 2) (omega arith) (omega arith),
)

-- The digit of weight 2 ^ k.
pub digit : ℕ → ℕ → ℕ
digit w zero = w % 2
digit w (suc k) = digit (w / 2) k

pub digit-lt : (w k : ℕ) → digit w k < 2
unfolding digit
digit-lt w zero = omega arith
digit-lt w (suc k) = digit-lt (w / 2) k

pub digit-zero : (k : ℕ) → digit 0 k ≡ 0
unfolding digit
digit-zero zero = refl
digit-zero (suc k) = digit-zero k

bit_and-zero : (k w : ℕ) → w ≤ k → bit_and w 0 ≡ 0
bit_and-zero k zero h = refl
bit_and-zero zero (suc w) h = absurd (omega arith)
bit_and-zero (suc k) (suc w) h =
    omega (arith, bit_and-halves (suc w) 0, bit_and-zero k (suc w / 2) (omega arith))

half_pow : (k : ℕ) → 2 ^ suc k / 2 ≡ 2 ^ k
half_pow k = omega (arith, pow-suc 2 k)

-- `w & (1 << k)` is the digit at its weight.
pub bit_and-two_pow : (k w : ℕ) → bit_and w (2 ^ k) ≡ digit w k * 2 ^ k
unfolding digit
bit_and-two_pow zero w =
    omega (arith, bit_and-halves w 1, bit_and-zero (w / 2) (w / 2) (omega arith))
bit_and-two_pow (suc k) w = omega (
  arith,
  bit_and-halves w (2 ^ suc k),
  pow-suc 2 k,
  ap (λ (t : ℕ). bit_and (w / 2) t) (half_pow k),
  bit_and-two_pow k (w / 2),
  ap (λ (t : ℕ). digit (w / 2) k * t) (pow-suc 2 k),
)

pub digit-bit_or : (k a b : ℕ) → digit (bit_or a b) k ≡ max (digit a k) (digit b k)
unfolding digit
digit-bit_or zero a b = omega (arith, bit_or-halves a b)
digit-bit_or (suc k) a b =
    ap (λ t. digit t k) (omega (arith, bit_or-halves a b)) ∙ digit-bit_or k (a / 2) (b / 2)

pub digit-two_pow : (j k : ℕ) → digit (2 ^ j) k ≡ (if j == k then 1 else 0)
unfolding digit
digit-two_pow zero zero = refl
digit-two_pow zero (suc k) = ground (arith, digit-zero k)
digit-two_pow (suc j) zero = ground (arith, pow-suc 2 j)
digit-two_pow (suc j) (suc k) = ap (λ t. digit t k) (half_pow j) ∙ ground (arith, digit-two_pow j k)

-- `w & (1 << k)` is not zero exactly when the digit is 1.
pub bit_test : (k w : ℕ) → (bit_and w (2 ^ k) != 0) ≡ (digit w k == 1)
bit_test k w = ground (arith, bit_and-two_pow k w, digit-lt w k, one-le-pow k 2)

-- `w |= 1 << j` sets the digit j and no other.
pub digit-set : (j k w : ℕ) → digit (bit_or w (2 ^ j)) k ≡ (if j == k then 1 else digit w k)
digit-set j k w = ground (arith, digit-bit_or k w (2 ^ j), digit-two_pow j k, digit-lt w k)

pub bit_or-lt : (n a b : ℕ) → a < 2 ^ n → b < 2 ^ n → bit_or a b < 2 ^ n
bit_or-lt zero a b ha hb = ground (arith, bit_or-halves a b, bit_or-bitwise 0 0)
bit_or-lt (suc n) a b ha hb = omega (
  arith,
  pow-suc 2 n,
  bit_or-halves a b,
  bit_or-lt n (a / 2) (b / 2) (omega (arith, pow-suc 2 n)) (omega (arith, pow-suc 2 n)),
)
