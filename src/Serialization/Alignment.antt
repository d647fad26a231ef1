-- ===== src/Serialization/Alignment.antt =====
-- `aligned_position` of src/serialization/cdr.cpp: the least position, from the offset on, whose
-- distance from the origin is a multiple of the alignment.
use open_rtdds.Prelude.{
  dec_lt, ◌⊎◌, inl, inr, ℕ, ℕ_discrete, ◌*◌, ◌/◌, ◌+◌, ◌-◌, ◌%◌, ◌^◌, ◌≤◌, ◌<◌, ◌≡◌, ap, ◌∙◌,
  Option, true, arith, bit_and, sub64, ◌==◌, if◌then◌else◌,
}
use open_rtdds.Prelude.Shift.{bit_and-mask}
use native.Mathlib.Nat.{one-le-pow, mod-lt, mod_self, mul-mod_right, div-add-mod, mul-le-mul_left}
use open_rtdds.Serialization.Cdr.{aligned_position, padding, is_power_of_two}

mask : (k x : ℕ) → 2 ^ k < 2 ^ 64 → bit_and x (sub64 (2 ^ k) 1) ≡ x % 2 ^ k
mask k x small = ap (bit_and x) {y = 2 ^ k - 1} (omega (arith, one-le-pow k 2)) ∙ bit_and-mask k x

abbrev pad : ℕ → ℕ → ℕ
pad rel P = if rel % P == 0 then 0 else P - rel % P

padding_eq : (rel k : ℕ) → 2 ^ k < 2 ^ 64 → padding rel (2 ^ k) ≡ pad rel (2 ^ k)
padding_eq rel k small = ground (arith, mask k rel small, mod-lt rel {m = 2 ^ k}, one-le-pow k 2)

power : (k : ℕ) → 2 ^ k < 2 ^ 64 → is_power_of_two (2 ^ k) ≡ true
power k small = ground (arith, mask k (2 ^ k) small, mod_self (2 ^ k), one-le-pow k 2)

aligned : (rel P : ℕ) → 0 < P → (rel + pad rel P) % P ≡ 0
aligned rel P pos = elim (ℕ_discrete (rel % P) 0) [
  | yes e ↦ ground (arith, e, ap (λ n. n % P) {x = rel + 0} {y = rel} (omega arith))
  | no ne ↦
      let up : rel + pad rel P ≡ P * (rel / P + 1) =
        ground (arith, ne, up_to rel P, mod-lt rel {m = P}) in
      ap (λ n. n % P) up ∙ mul-mod_right P (rel / P + 1)
]
  where
    up_to : (rel P : ℕ) → rel + P ≡ P * (rel / P + 1) + rel % P
    up_to rel P = grind (arith, div-add-mod rel P)

-- An aligned position of the least distance from the offset on.
pub record IsLeast (offset origin P start : ℕ) : Type 0 where
  pub from : offset ≤ start
  pub aligned_at : (start - origin) % P ≡ 0
  pub least : (t : ℕ) → offset ≤ t → (t - origin) % P ≡ 0 → start ≤ t

least_multiple : (rel P u : ℕ) → 0 < P → rel ≤ u → u % P ≡ 0 → rel + pad rel P ≤ u
least_multiple rel P u pos le e = elim (ℕ_discrete (rel % P) 0) [
  | yes z ↦ ground (arith, z, le)
  | no ne ↦ elim (dec_lt (rel / P) (u / P)) [
    | yes more ↦
        let up : P * (rel / P + 1) ≤ P * (u / P) = mul-le-mul_left P (omega (arith, more)) in
        ground (arith, ne, up, up_to, div-add-mod rel P, div-add-mod u P, e, mod-lt rel {m = P})
    | no same ↦
        let up : P * (u / P) ≤ P * (rel / P) = mul-le-mul_left P (omega (arith, same)) in
        absurd (omega (arith, up, ne, le, e, div-add-mod rel P, div-add-mod u P))
  ]
]
  where
    up_to : P * (rel / P + 1) ≡ P * (rel / P) + P
    up_to = grind arith

IsLeast-at :
    (offset origin P : ℕ)
    → 0 < P
    → origin ≤ offset
    → IsLeast offset origin P (offset + pad (offset - origin) P)
IsLeast-at offset origin P pos le = record {
  from = omega arith;
  aligned_at =
      ap (λ n. n % P) {x = offset + pad (offset - origin) P - origin}
        {y = offset - origin + pad (offset - origin) P} (omega (arith, le))
      ∙ aligned (offset - origin) P pos;
  least = λ t from e.
      let up = least_multiple (offset - origin) P (t - origin) pos (omega (arith, from)) e in
      omega (arith, up, le, from);
}

-- For an alignment that is a power of two, and an offset and an origin that are 64-bit numbers,
-- `aligned_position` gives the least aligned position from the offset on, if the offset does not lie
-- before the origin and that position is a 64-bit number, and fails otherwise.
pub aligned_position_lem :
    (offset origin k : ℕ)
    → 2 ^ k < 2 ^ 64
    → offset < 2 ^ 64
    → origin < 2 ^ 64
    → ((aligned_position offset origin (2 ^ k) ≡ Option.none) × (offset < origin))
      ⊎ ((start : ℕ) × IsLeast offset origin (2 ^ k) start
          × (origin ≤ offset)
          × (((start < 2 ^ 64) × (aligned_position offset origin (2 ^ k) ≡ Option.some start))
              ⊎ ((2 ^ 64 ≤ start) × (aligned_position offset origin (2 ^ k) ≡ Option.none))))
unfolding aligned_position
aligned_position_lem offset origin k small offset_small origin_small =
    let P : ℕ = 2 ^ k in
    elim (dec_lt offset origin) [
      | yes before ↦ inl (ground (arith, before), before)
      | no behind ↦
          let le : origin ≤ offset = omega (arith, behind) in
          let rel : sub64 offset origin ≡ offset - origin =
            omega (arith, le, offset_small, origin_small) in
          let p : padding (sub64 offset origin) P ≡ pad (offset - origin) P =
            ap (λ n. padding n P) rel ∙ padding_eq (offset - origin) k small in
          let lt : pad (offset - origin) P < P =
            ground (arith, one-le-pow k 2, mod-lt (offset - origin) {m = P}) in
          inr (
            offset + pad (offset - origin) P,
            IsLeast-at offset origin P (one-le-pow k 2 (omega arith)) le,
            le,
            elim (dec_lt (offset + pad (offset - origin) P) (2 ^ 64)) [
              | yes fits ↦ inl (fits, ground (arith, le, fits, p, lt, power k small))
              | no wraps ↦
                  inr (omega (arith, wraps), ground (arith, le, wraps, p, lt, power k small))
            ],
          )
    ]
