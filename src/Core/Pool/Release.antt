-- ===== src/Core/Pool/Release.antt =====
-- The object pool takes back live slots only, and each of them once.
use open_rtdds.Prelude.{
  ℕ, zero, suc, ◌+◌, ◌<◌, ◌≡◌, ◌≢◌, refl, Bool, true, false, none, arith, length-set,
  get_or-set_self, get_or-set_ne, Bool-cases, inl, inr, ℕ_discrete, ◌&&◌,
}
use open_rtdds.Core.Pool.{
  StaticPool, Pointer, null, elsewhere, at, is_used, points_at, destroy, release_loop, release,
}
use open_rtdds.Core.Pool.Count.{count_used-unset, count_used-le}
use open_rtdds.Core.Pool.Acquire.{IsValid}

points_at→at : (object : Pointer) (i : ℕ) → points_at object i ≡ true → object ≡ at i
points_at→at null i e = cc
points_at→at elsewhere i e = cc
points_at→at (at j) i e = ground arith

points_at-at : (i : ℕ) → points_at (at i) i ≡ true
points_at-at i = ground arith

module _ {ℓ} {A : Type ℓ} where
  -- What `release` may answer: the slot that the pointer names is freed if it is live, and any other
  -- pointer is refused.
  pub data Released (capacity : ℕ) (p : StaticPool A) (object : Pointer)
      : Bool × StaticPool A → Type ℓ where
    refused :
        ((j : ℕ) → j < capacity → is_used p.used j ≡ true → object ≢ at j)
        → Released capacity p object (false, p)
    freed :
        (i : ℕ)
        → object ≡ at i
        → i < capacity
        → is_used p.used i ≡ true
        → Released capacity p object (true, destroy p i)

  release_loop-Released :
      (rounds index capacity : ℕ) (p : StaticPool A) (object : Pointer)
      → rounds + index ≡ capacity
      → ((j : ℕ) → j < index → is_used p.used j ≡ true → object ≢ at j)
      → Released capacity p object (release_loop rounds index p object)
  unfolding release_loop
  release_loop-Released zero index capacity p object e before =
      refused (λ j h. before j (omega arith))
  release_loop-Released (suc rounds) index capacity p object e before =
      elim (Bool-cases (is_used p.used index && points_at object index)) [
        | inl u ↦
            rw u
              (freed index (points_at→at object index (ground arith)) (omega arith) (ground arith))
        | inr f ↦ rw f (
            release_loop-Released rounds (suc index) capacity p object (omega arith) (λ j h used q.
              elim (ℕ_discrete j index) [
                | yes q' ↦ ground (arith, q, q', points_at-at index)
                | no ne ↦ before j (omega arith) used q
              ]))
      ]

  destroy-IsValid :
      {capacity : ℕ} (p : StaticPool A) (i : ℕ)
      → IsValid capacity p
      → i < capacity
      → is_used p.used i ≡ true
      → IsValid capacity (destroy p i)
  destroy-IsValid p i v h f = record {
    small = v.small;
    slots = ground (arith, length-set p.storage i none, v.slots);
    flags = ground (arith, length-set p.used i false, v.flags);
    counted = omega (
      arith,
      count_used-unset p.used i (omega (arith, v.flags)) f,
      v.counted,
      v.small,
      v.flags,
      count_used-le p.used,
    );
    live = λ j lt u. elim (ℕ_discrete i j) [
      | yes e ↦ ground (arith, get_or-set_self p.used i false true, v.flags)
      | no ne ↦ ground (
        arith,
        get_or-set_ne p.storage i j none none ne,
        get_or-set_ne p.used i j false true ne,
        v.live j lt,
      )
    ];
    free = λ j lt u. elim (ℕ_discrete i j) [
      | yes e ↦ ground (arith, get_or-set_self p.storage i none none, v.slots)
      | no ne ↦ ground (
        arith,
        get_or-set_ne p.storage i j none none ne,
        get_or-set_ne p.used i j false true ne,
        v.free j lt,
      )
    ];
  }

  release-Released :
      (capacity : ℕ) (p : StaticPool A) (object : Pointer)
      → Released capacity p object (release capacity p object)
  unfolding release
  release-Released capacity p null = refused (λ j h u q. cc)
  release-Released capacity p elsewhere =
      release_loop-Released capacity 0 capacity p elsewhere (omega arith)
        (λ j h. absurd (omega arith))
  release-Released capacity p (at i) =
      release_loop-Released capacity 0 capacity p (at i) (omega arith) (λ j h. absurd (omega arith))

  -- A pointer that was released once is refused the second time.
  release_twice :
      (capacity : ℕ) (p : StaticPool A) (object : Pointer)
      → IsValid capacity p
      → {r s : Bool × StaticPool A} → Released capacity p object r
      → Released capacity r.1 object s
      → s.0 ≡ false
  release_twice capacity p object v (refused none_at) (refused x) = refl
  release_twice capacity p object v (refused none_at) (freed i e h u) = absurd (none_at i h u e)
  release_twice capacity p object v (freed i e h u) (refused x) = refl
  release_twice capacity p object v (freed i e h u) (freed j e' h' u') =
      ground (arith, get_or-set_self p.used i false true (omega (arith, v.flags)))

  -- `release` on a valid pool frees the slot of a live object and refuses every other pointer, keeps
  -- the pool valid, and refuses the same pointer when it is called again.
  pub release_lem :
      {capacity : ℕ} {p : StaticPool A} (object : Pointer)
      → IsValid capacity p
      → Released capacity p object (release capacity p object)
        × IsValid capacity (release capacity p object).1
        × ((release capacity (release capacity p object).1 object).0 ≡ false)
  release_lem {capacity} {p} object v =
      let r = release-Released capacity p object in
      (r, keeps r, release_twice capacity p object v r (release-Released capacity _ object))
    where
      keeps : {r : Bool × StaticPool A} → Released capacity p object r → IsValid capacity r.1
      keeps (refused x) = v
      keeps (freed i e h u) = destroy-IsValid p i v h u
