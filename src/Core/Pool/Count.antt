-- ===== src/Core/Pool/Count.antt =====
-- The number of used slots of the object pool.
use open_rtdds.Prelude.{
  ℕ, zero, suc, ◌≤◌, ◌<◌, ◌≡◌, refl, ap, Bool, true, false, List, [], ◌∷◌, arith, length, set,
  length-set,
}
use open_rtdds.Core.Pool.{is_used}

abbrev pub count_used : List Bool → ℕ
count_used [] = 0
count_used (true ∷ us) = suc (count_used us)
count_used (false ∷ us) = count_used us

pub count_used-set :
    (us : List Bool) (i : ℕ)
    → i < length us
    → is_used us i ≡ false
    → count_used (set us i true) ≡ suc (count_used us)
count_used-set [] i h e = absurd (omega arith)
count_used-set (true ∷ us) zero h e = cc
count_used-set (false ∷ us) zero h e = refl
count_used-set (true ∷ us) (suc i) h e = ap suc (count_used-set us i (omega arith) e)
count_used-set (false ∷ us) (suc i) h e = count_used-set us i (omega arith) e

pub count_used-unset :
    (us : List Bool) (i : ℕ)
    → i < length us
    → is_used us i ≡ true
    → suc (count_used (set us i false)) ≡ count_used us
count_used-unset [] i h e = absurd (omega arith)
count_used-unset (true ∷ us) zero h e = refl
count_used-unset (false ∷ us) zero h e = cc
count_used-unset (true ∷ us) (suc i) h e = ap suc (count_used-unset us i (omega arith) e)
count_used-unset (false ∷ us) (suc i) h e = count_used-unset us i (omega arith) e

pub count_used-le : (us : List Bool) → count_used us ≤ length us
count_used-le [] = omega arith
count_used-le (true ∷ us) = omega (arith, count_used-le us)
count_used-le (false ∷ us) = omega (arith, count_used-le us)

pub count_used_all :
    (us : List Bool) → ((j : ℕ) → j < length us → is_used us j ≡ true) → count_used us ≡ length us
count_used_all [] all = refl
count_used_all (true ∷ us) all = ap suc (count_used_all us (λ j h. all (suc j) (omega arith)))
count_used_all (false ∷ us) all = cc (all 0 (omega arith))

pub count_used-lt :
    (us : List Bool) (i : ℕ) → i < length us → is_used us i ≡ false → count_used us < length us
count_used-lt us i h e =
    omega (arith, count_used-set us i h e, count_used-le (set us i true), length-set us i true)
