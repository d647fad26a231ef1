-- ===== src/Core/Pool/Clear.antt =====
-- StaticPool's constructor, and `clear`, which destroys every live object.
use open_rtdds.Prelude.{
  ℕ, zero, suc, ◌+◌, ◌^◌, ◌<◌, ◌≡◌, ◌∙◌, Bool, true, false, none, arith, length, set, get_or,
  replicate, length-set, get_or-set_self, get_or-set_ne, length-replicate, get_or-replicate,
  ℕ_discrete, refl, sym, ap, subst, List, [], ◌∷◌, Bool-cases, inl, inr,
}
use open_rtdds.Core.Pool.{StaticPool, is_used, init, clear, clear_loop}
use open_rtdds.Core.Pool.Count.{count_used}
use open_rtdds.Core.Pool.Acquire.{IsValid}

count_used_none :
    (us : List Bool) → ((j : ℕ) → j < length us → is_used us j ≡ false) → count_used us ≡ 0
count_used_none [] all = refl
count_used_none (true ∷ us) all = cc (all 0 (omega arith))
count_used_none (false ∷ us) all = count_used_none us (λ j h. all (suc j) (omega arith))

get_or-replicate_lt : (n i : ℕ) → i < n → is_used (replicate n false) i ≡ false
get_or-replicate_lt zero i h = absurd (omega arith)
get_or-replicate_lt (suc n) zero h = refl
get_or-replicate_lt (suc n) (suc i) h = get_or-replicate_lt n i (omega arith)

module _ {ℓ} {A : Type ℓ} where
  -- Both arrays have the capacity, an unused slot is empty, and the slots below `index` are unused.
  record ClearedTo (capacity index : ℕ) (p : StaticPool A) : Type ℓ where
    pub slots : length p.storage ≡ capacity
    pub flags : length p.used ≡ capacity
    pub free : (i : ℕ) → i < capacity → is_used p.used i ≡ false → get_or p.storage i none ≡ none
    pub done : (i : ℕ) → i < index → is_used p.used i ≡ false

  clear_loop-ClearedTo :
      (rounds index capacity : ℕ) (p : StaticPool A)
      → rounds + index ≡ capacity
      → ClearedTo capacity index p
      → ClearedTo capacity capacity (clear_loop rounds index p)
  unfolding clear_loop
  clear_loop-ClearedTo zero index capacity p e v = record {
    slots = v.slots;
    flags = v.flags;
    free = v.free;
    done = λ i h. v.done i (omega arith);
  }
  clear_loop-ClearedTo (suc rounds) index capacity p e v =
      elim (Bool-cases (is_used p.used index)) [
        | inl u ↦ rw u (
            clear_loop-ClearedTo rounds (suc index) capacity _ (omega arith) (record {
              slots = length-set p.storage index none ∙ v.slots;
              flags = length-set p.used index false ∙ v.flags;
              free = λ i lt f. elim (ℕ_discrete index i) [
                | yes q ↦ ground (
                  arith,
                  v.slots,
                  get_or-set_self p.storage index none none,
                  ap (λ k. get_or (set p.storage index none) k none) q,
                )
                | no ne ↦
                    get_or-set_ne p.storage index i none none ne
                    ∙ v.free i lt (ground (arith, get_or-set_ne p.used index i false true ne))
              ];
              done = λ i lt. elim (ℕ_discrete index i) [
                | yes q ↦ ground (
                  arith,
                  v.flags,
                  get_or-set_self p.used index false true,
                  ap (λ k. is_used (set p.used index false) k) q,
                )
                | no ne ↦ get_or-set_ne p.used index i false true ne ∙ v.done i (omega arith)
              ];
            }))
        | inr f ↦ rw f (
            clear_loop-ClearedTo rounds (suc index) capacity p (omega arith) (record {
              slots = v.slots;
              flags = v.flags;
              free = v.free;
              done = λ i lt. elim (ℕ_discrete index i) [
                | yes q ↦ subst (λ k. is_used p.used k ≡ false) q f
                | no ne ↦ v.done i (omega arith)
              ];
            }))
      ]

  -- `clear` leaves a valid pool in which no slot is used and no object lives.
  pub clear_lem :
      {capacity : ℕ} {p : StaticPool A}
      → IsValid capacity p
      → IsValid capacity (clear capacity p)
        × ((clear capacity p).size ≡ 0)
        × ((i : ℕ)
            → i < capacity
            → (is_used (clear capacity p).used i ≡ false)
              × (get_or (clear capacity p).storage i none ≡ none))
  unfolding clear
  clear_lem {capacity} {p} v =
      let c = clear_loop-ClearedTo capacity 0 capacity p (omega arith) (record {
        slots = v.slots;
        flags = v.flags;
        free = v.free;
        done = λ i h. absurd (omega arith);
      }) in
      (
        record {
          small = v.small;
          slots = c.slots;
          flags = c.flags;
          counted = sym (
              count_used_none (clear_loop capacity 0 p).used
                (λ j h. c.done j (omega (arith, c.flags))));
          live = λ i h u. ground (arith, c.done i h);
          free = c.free;
        },
        refl,
        λ i h. (c.done i h, c.free i h (c.done i h)),
      )

  -- A new pool is valid.
  pub init-IsValid : (capacity : ℕ) → capacity < 2 ^ 64 → IsValid capacity (init {A = A} capacity)
  unfolding init
  init-IsValid capacity h = record {
    small = h;
    slots = length-replicate capacity none;
    flags = length-replicate capacity false;
    counted = sym (
        count_used_none (replicate capacity false) (λ j lt.
          get_or-replicate_lt capacity j (omega (arith, length-replicate capacity false))));
    live = λ i lt u. ground (arith, get_or-replicate_lt capacity i lt);
    free = λ i lt u. get_or-replicate capacity i none;
  }
