-- ===== src/Prelude/Shift.antt =====
-- Shifts by whole bytes, and `|` of numbers whose digits do not meet.
use Prim.Native.Nat.{
  ℕ, zero, suc, ◌+◌, ◌-◌, ◌*◌, ◌/◌, ◌%◌, ◌^◌, ◌≤◌, ◌<◌, bit_and, bit_or, bit_or-bitwise,
}
use mathlib.Core.Path.{◌≡◌, refl, sym, ap, ◌∙◌}
use native.Mathlib.Nat.{pow-suc, one-le-pow, div-add-mod, div-div-eq-div-mul, mod-lt}
use native.Mathlib.Omega.{arith}
use open_rtdds.Prelude.Bits.{bit_or-halves, bit_and-halves}

-- `value << n` on 64 bits
abbrev pub shift_left64 : ℕ → ℕ → ℕ
shift_left64 value n = (value * 2 ^ n) % 2 ^ 64

-- `value >> n`
abbrev pub shift_right : ℕ → ℕ → ℕ
shift_right value n = value / 2 ^ n

bit_and-zero_right : (k c : ℕ) → c ≤ k → bit_and c 0 ≡ 0
bit_and-zero_right k zero h = refl
bit_and-zero_right zero (suc c) h = absurd (omega arith)
bit_and-zero_right (suc k) (suc c) h =
    omega (arith, bit_and-halves (suc c) 0, bit_and-zero_right k (suc c / 2) (omega arith))

bit_or-zero_left : (c : ℕ) → bit_or 0 c ≡ c
bit_or-zero_left c = bit_or-bitwise 0 c

bit_or-zero_right : (k c : ℕ) → c ≤ k → bit_or c 0 ≡ c
bit_or-zero_right k zero h = bit_or-bitwise 0 0
bit_or-zero_right zero (suc c) h = absurd (omega arith)
bit_or-zero_right (suc k) (suc c) h =
    omega (arith, bit_or-halves (suc c) 0, bit_or-zero_right k (suc c / 2) (omega arith))

-- Multiplying by one more power of two.
double : (k q : ℕ) → q * 2 ^ suc k ≡ (q * 2 ^ k) * 2
double k q = grind (arith, pow-suc 2 k)

pub bit_or-high_low : (k q c : ℕ) → c < 2 ^ k → bit_or (q * 2 ^ k) c ≡ q * 2 ^ k + c
bit_or-high_low zero q c h =
    ap (bit_or (q * 1)) {y = 0} (omega arith)
    ∙ bit_or-zero_right (q * 1) (q * 1) (omega arith)
    ∙ omega arith
bit_or-high_low (suc k) q c h = omega (
  arith,
  double k q,
  bit_or-halves (q * 2 ^ suc k) c,
  ap (λ n. bit_or n (c / 2)) {x = q * 2 ^ suc k / 2} {y = q * 2 ^ k} (omega (arith, double k q)),
  bit_or-high_low k q (c / 2) (omega (arith, pow-suc 2 k)),
)

pub bit_or-low_high : (k q c : ℕ) → c < 2 ^ k → bit_or c (q * 2 ^ k) ≡ c + q * 2 ^ k
bit_or-low_high zero q c h =
    ap (λ n. bit_or n (q * 1)) {y = 0} (omega arith) ∙ bit_or-zero_left (q * 1) ∙ omega arith
bit_or-low_high (suc k) q c h = omega (
  arith,
  double k q,
  bit_or-halves c (q * 2 ^ suc k),
  ap (bit_or (c / 2)) {x = q * 2 ^ suc k / 2} {y = q * 2 ^ k} (omega (arith, double k q)),
  bit_or-low_high k q (c / 2) (omega (arith, pow-suc 2 k)),
)

pow_eight : (n : ℕ) → 2 ^ suc (suc (suc (suc (suc (suc (suc (suc n))))))) ≡ 2 ^ n * 256
pow_eight n =
    let pow_four : (k : ℕ) → 2 ^ suc (suc (suc (suc k))) ≡ 2 ^ k * 16 = λ k. omega (
      arith,
      pow-suc 2 k,
      pow-suc 2 (suc k),
      pow-suc 2 (suc (suc k)),
      pow-suc 2 (suc (suc (suc k))),
    ) in
    omega (arith, pow_four n, pow_four (suc (suc (suc (suc n)))))

pub pow-byte : (s : ℕ) → 2 ^ (suc s * 8) ≡ 2 ^ (s * 8) * 256
pow-byte s = ap (λ n. 2 ^ n) (omega arith) ∙ pow_eight (s * 8)

-- A base-256 digit over the place P.
module _ (v P : ℕ) where
  place : P * (v / P) ≡ P * 256 * (v / (P * 256)) + v / P % 256 * P
  place =
      let q = div-div-eq-div-mul v P 256 in
      let d = div-add-mod (v / P) 256 in rw (sym q) (sym (ap (λ n. P * n) d) ∙ grind arith)

-- The byte of weight 2 ^ (8 s) joins what lies below it, and what lies above it.
module _ (v s : ℕ) where
  pub byte-below : v % 2 ^ (suc s * 8) ≡ v % 2 ^ (s * 8) + v / 2 ^ (s * 8) % 256 * 2 ^ (s * 8)
  byte-below = rw (pow-byte s) (
      omega (
        arith,
        place v (2 ^ (s * 8)),
        div-add-mod v (2 ^ (s * 8)),
        div-add-mod v (2 ^ (s * 8) * 256),
      ))

  pub byte-above :
      v / 2 ^ (s * 8) * 2 ^ (s * 8)
      ≡ v / 2 ^ (suc s * 8) * 2 ^ (suc s * 8) + v / 2 ^ (s * 8) % 256 * 2 ^ (s * 8)
  byte-above = rw (pow-byte s) (grind (arith, place v (2 ^ (s * 8))))

  pub byte-le : v / 2 ^ (s * 8) % 256 * 2 ^ (s * 8) ≤ v
  byte-le = grind (arith, div-add-mod v (2 ^ (s * 8)), place v (2 ^ (s * 8)))

  pub byte_place-lt : v / 2 ^ (s * 8) % 256 * 2 ^ (s * 8) < 2 ^ (suc s * 8)
  byte_place-lt =
      rw (pow-byte s) (grind (arith, one-le-pow (s * 8) 2, mod-lt (v / 2 ^ (s * 8)) {m = 256}))

-- `value & (2 ^ k - 1)` is the remainder.
mod-double : (x P : ℕ) → x / 2 % P * 2 + x % 2 ≡ x % (P * 2)
mod-double x P =
    let q : x / (P * 2) ≡ x / 2 / P =
      ap (λ n. x / n) (omega arith) ∙ sym (div-div-eq-div-mul x 2 P) in
    let whole : P * 2 * (x / (P * 2)) ≡ P * (x / 2 / P) * 2 = rw q (grind arith) in
    omega (arith, whole, div-add-mod x (P * 2), div-add-mod (x / 2) P, div-add-mod x 2)

pub bit_and-mask : (k x : ℕ) → bit_and x (2 ^ k - 1) ≡ x % 2 ^ k
bit_and-mask zero x = omega (
  arith,
  bit_and-zero_right x x (omega arith),
  ap (bit_and x) {x = 2 ^ 0 - 1} {y = 0} (omega arith),
)
bit_and-mask (suc k) x =
    let one_le = one-le-pow k 2 (omega arith) in
    let half : (2 ^ suc k - 1) / 2 ≡ 2 ^ k - 1 = omega (arith, pow-suc 2 k) in
    let odd : (2 ^ suc k - 1) % 2 ≡ 1 = omega (arith, pow-suc 2 k) in
    bit_and-halves x (2 ^ suc k - 1)
    ∙ omega (
      arith,
      ap (bit_and (x / 2)) half,
      odd,
      bit_and-mask k (x / 2),
      mod-double x (2 ^ k),
      ap (λ n. x % n) (pow-suc 2 k),
    )
