-- ===== src/Rmw/Slots.antt =====
-- Tables of slots: the search for a free slot, and the number of used ones.
use open_rtdds.Prelude.{
  ℕ, zero, suc, ◌+◌, ◌≤◌, ◌<◌, ◌≡◌, ◌⊎◌, refl, Bool, true, false, not, List, [], ◌∷◌, Option, arith,
  if◌then◌else◌, length, get_or, set, inl, inr, Bool-cases, ℕ_discrete, subst,
}

module _ {A : Type 0} (used : A → Bool) (d : A) where
  -- `for (index …) { if (!slot.used) { … return } }`: the index of the slot that is taken.
  abbrev pub free_slot : ℕ → ℕ → List A → Option ℕ
  free_slot zero index xs = Option.none
  free_slot (suc rounds) index xs =
      let rest = free_slot rounds (suc index) xs in
      if not (used (get_or xs index d)) then Option.some index else rest

  abbrev pub count : List A → ℕ
  count [] = 0
  count (x ∷ xs) = if used x then suc (count xs) else count xs

  pub count-le : (xs : List A) → count xs ≤ length xs
  count-le [] = omega arith
  count-le (x ∷ xs) = elim (Bool-cases (used x)) [
    | inl u ↦ ground (arith, u, count-le xs)
    | inr f ↦ ground (arith, f, count-le xs)
  ]

  pub count-take :
      (xs : List A) (i : ℕ) (y : A)
      → i < length xs
      → used (get_or xs i d) ≡ false
      → used y ≡ true
      → count (set xs i y) ≡ suc (count xs)
  count-take [] i y h f u = absurd (omega arith)
  count-take (x ∷ xs) zero y h f u = ground (arith, f, u)
  count-take (x ∷ xs) (suc i) y h f u = elim (Bool-cases (used x)) [
    | inl q ↦ ground (arith, q, count-take xs i y (omega arith) f u)
    | inr q ↦ ground (arith, q, count-take xs i y (omega arith) f u)
  ]

  pub count-give :
      (xs : List A) (i : ℕ) (y : A)
      → i < length xs
      → used (get_or xs i d) ≡ true
      → used y ≡ false
      → suc (count (set xs i y)) ≡ count xs
  count-give [] i y h f u = absurd (omega arith)
  count-give (x ∷ xs) zero y h f u = ground (arith, f, u)
  count-give (x ∷ xs) (suc i) y h f u = elim (Bool-cases (used x)) [
    | inl q ↦ ground (arith, q, count-give xs i y (omega arith) f u)
    | inr q ↦ ground (arith, q, count-give xs i y (omega arith) f u)
  ]

  pub count-keep :
      (xs : List A) (i : ℕ) (y : A)
      → used (get_or xs i d) ≡ used y
      → i < length xs
      → count (set xs i y) ≡ count xs
  count-keep [] i y e h = refl
  count-keep (x ∷ xs) zero y e h = ground (arith, e)
  count-keep (x ∷ xs) (suc i) y e h = elim (Bool-cases (used x)) [
    | inl q ↦ ground (arith, q, count-keep xs i y e (omega arith))
    | inr q ↦ ground (arith, q, count-keep xs i y e (omega arith))
  ]

  all_used :
      (xs : List A) → ((j : ℕ) → j < length xs → used (get_or xs j d) ≡ true) → count xs ≡ length xs
  all_used [] h = refl
  all_used (x ∷ xs) h =
      ground (arith, h 0 (omega arith), all_used xs (λ j lt. h (suc j) (omega arith)))

  pub free_slot_lem :
      (rounds index : ℕ) (xs : List A)
      → index + rounds ≡ length xs
      → ((j : ℕ) → j < index → used (get_or xs j d) ≡ true)
      → ((free_slot rounds index xs ≡ Option.none) × (count xs ≡ length xs))
        ⊎ ((i : ℕ) × (free_slot rounds index xs ≡ Option.some i)
            × (i < length xs)
            × (used (get_or xs i d) ≡ false))
  free_slot_lem zero index xs e before = inl (refl, all_used xs (λ j lt. before j (omega arith)))
  free_slot_lem (suc rounds) index xs e before = elim (Bool-cases (used (get_or xs index d))) [
    | inr f ↦ rw f (inr (index, refl, omega arith, f))
    | inl u ↦ rw u (
        free_slot_lem rounds (suc index) xs (omega arith) (λ j lt. elim (ℕ_discrete index j) [
          | yes q ↦ subst (λ k. used (get_or xs k d) ≡ true) q u
          | no ne ↦ before j (omega arith)
        ]))
  ]
