-- ===== src/Core/Pool/Acquire.antt =====
-- The object pool never hands out a live slot, and finds a free one whenever there is one.
use open_rtdds.Prelude.{
  ℕ, zero, suc, ◌+◌, ◌<◌, ◌^◌, ◌≡◌, ◌≢◌, ◌↔◌, refl, true, false, none, some, arith, length, get_or,
  length-set, get_or-set_self, get_or-set_ne, Bool-cases, inl, inr, ℕ_discrete,
}
use open_rtdds.Core.Pool.{StaticPool, Pointer, null, at, is_used, construct, acquire_loop, acquire}
use open_rtdds.Core.Pool.Count.{count_used, count_used-set, count_used-lt, count_used_all}

module _ {ℓ} {A : Type ℓ} where
  -- The counter counts the used slots, and a slot is used exactly when an object lives in it.
  pub record IsValid (capacity : ℕ) (p : StaticPool A) : Type ℓ where
    pub small : capacity < 2 ^ 64
    pub slots : length p.storage ≡ capacity
    pub flags : length p.used ≡ capacity
    pub counted : p.size ≡ count_used p.used
    pub live : (i : ℕ) → i < capacity → is_used p.used i ≡ true → get_or p.storage i none ≢ none
    pub free : (i : ℕ) → i < capacity → is_used p.used i ≡ false → get_or p.storage i none ≡ none

  -- What `acquire` may answer: null if every slot is used, and otherwise the first free slot, with
  -- the object in it.
  pub data Acquired (capacity : ℕ) (p : StaticPool A) (a : A)
      : Pointer × StaticPool A → Type ℓ where
    exhausted : ((j : ℕ) → j < capacity → is_used p.used j ≡ true) → Acquired capacity p a (null, p)
    placed :
        (i : ℕ)
        → i < capacity
        → is_used p.used i ≡ false
        → ((j : ℕ) → j < i → is_used p.used j ≡ true)
        → Acquired capacity p a (at i, construct p i a)

  acquire_loop-Acquired :
      (rounds index capacity : ℕ) (p : StaticPool A) (a : A)
      → rounds + index ≡ capacity
      → ((j : ℕ) → j < index → is_used p.used j ≡ true)
      → Acquired capacity p a (acquire_loop rounds index p a)
  unfolding acquire_loop
  acquire_loop-Acquired zero index capacity p a e before = exhausted (λ j h. before j (omega arith))
  acquire_loop-Acquired (suc rounds) index capacity p a e before =
      elim (Bool-cases (is_used p.used index)) [
        | inl u ↦ rw u (
            acquire_loop-Acquired rounds (suc index) capacity p a (omega arith) (λ j h.
              elim (ℕ_discrete j index) [ yes q ↦ rw q u | no ne ↦ before j (omega arith) ]))
        | inr f ↦ rw f (placed index (omega arith) f before)
      ]

  construct-IsValid :
      {capacity : ℕ} (p : StaticPool A) (i : ℕ) (a : A)
      → IsValid capacity p
      → i < capacity
      → is_used p.used i ≡ false
      → IsValid capacity (construct p i a)
  construct-IsValid p i a v h f = record {
    small = v.small;
    slots = ground (arith, length-set p.storage i (some a), v.slots);
    flags = ground (arith, length-set p.used i true, v.flags);
    counted = omega (
      arith,
      count_used-set p.used i (omega (arith, v.flags)) f,
      count_used-lt p.used i (omega (arith, v.flags)) f,
      v.counted,
      v.flags,
      v.small,
    );
    live = λ j lt u. elim (ℕ_discrete i j) [
      | yes e ↦ ground (arith, get_or-set_self p.storage i (some a) none, v.slots)
      | no ne ↦ ground (
        arith,
        get_or-set_ne p.storage i j (some a) none ne,
        get_or-set_ne p.used i j true true ne,
        v.live j lt,
      )
    ];
    free = λ j lt u. elim (ℕ_discrete i j) [
      | yes e ↦ ground (arith, get_or-set_self p.used i true true, v.flags)
      | no ne ↦ ground (
        arith,
        get_or-set_ne p.storage i j (some a) none ne,
        get_or-set_ne p.used i j true true ne,
        v.free j lt,
      )
    ];
  }

  -- `acquire` on a valid pool answers as `Acquired` says, keeps the pool valid, and fails exactly
  -- when the counter has reached the capacity.
  pub acquire_lem :
      {capacity : ℕ} {p : StaticPool A} (a : A)
      → IsValid capacity p
      → Acquired capacity p a (acquire capacity p a)
        × IsValid capacity (acquire capacity p a).1
        × (((acquire capacity p a).0 ≡ null) ↔ (p.size ≡ capacity))
  unfolding acquire
  acquire_lem {capacity} {p} a v =
      go (acquire_loop-Acquired capacity 0 capacity p a (omega arith) (λ j h. absurd (omega arith)))
    where
      go :
          {r : Pointer × StaticPool A}
          → Acquired capacity p a r
          → Acquired capacity p a r × IsValid capacity r.1 × ((r.0 ≡ null) ↔ (p.size ≡ capacity))
      go (exhausted all) = (
        exhausted all,
        v,
        (
          λ e. omega (
            arith,
            v.counted,
            v.flags,
            count_used_all p.used (λ j h. all j (omega (arith, v.flags))),
          ),
          λ e. refl,
        ),
      )
      go (placed i h f before) = (
        placed i h f before,
        construct-IsValid p i a v h f,
        (
          λ e. cc,
          λ e. absurd (
              omega (arith, v.counted, v.flags, count_used-lt p.used i (omega (arith, v.flags)) f)),
        ),
      )
