-- ===== src/Rtps/Participants/Search.antt =====
-- The loops of DiscoveredParticipantTable find the first entry that passes their test, as `find` does.
use open_rtdds.Prelude.{
  ℕ, zero, suc, ◌+◌, ◌<◌, ◌≡◌, ◌⊎◌, refl, subst, Bool, true, false, List, [], ◌∷◌, Option, arith,
  length, get_or, set, inl, inr, Bool-cases, ℕ_discrete,
}
use open_rtdds.Rtps.Types.{bytes_eq}
use open_rtdds.Rtps.Participants.{DiscoveredParticipant, no_entry, holds, search, find}

-- What a search finds.
pub search_lem :
    (test : DiscoveredParticipant → Bool) (rounds index : ℕ) (xs : List DiscoveredParticipant)
    → index + rounds ≡ length xs
    → ((j : ℕ) → j < index → test (get_or xs j no_entry) ≡ false)
    → ((search test rounds index xs ≡ Option.none)
        × ((j : ℕ) → j < length xs → test (get_or xs j no_entry) ≡ false))
      ⊎ ((i : ℕ) × (search test rounds index xs ≡ Option.some i)
          × (i < length xs)
          × (test (get_or xs i no_entry) ≡ true)
          × ((j : ℕ) → j < i → test (get_or xs j no_entry) ≡ false))
search_lem test zero index xs e before = inl (refl, λ j lt. before j (omega arith))
search_lem test (suc rounds) index xs e before =
    elim (Bool-cases (test (get_or xs index no_entry))) [
      | inl hit ↦ rw hit (inr (index, refl, omega arith, hit, before))
      | inr miss ↦ rw miss (
          search_lem test rounds (suc index) xs (omega arith) (λ j lt. elim (ℕ_discrete index j) [
            | yes q ↦ subst (λ k. test (get_or xs k no_entry) ≡ false) q miss
            | no ne ↦ before j (omega arith)
          ]))
    ]

-- After a write at an index before which nothing matches.
pub find-set_hit :
    (prefix : List ℕ) (xs : List DiscoveredParticipant) (i : ℕ) (y : DiscoveredParticipant)
    → i < length xs
    → holds prefix y ≡ true
    → ((j : ℕ) → j < i → holds prefix (get_or xs j no_entry) ≡ false)
    → find prefix (set xs i y) ≡ Option.some y
find-set_hit prefix [] i y lt h before = absurd (omega arith)
find-set_hit prefix (x ∷ xs) zero y lt h before = ground (arith, h)
find-set_hit prefix (x ∷ xs) (suc i) y lt h before = ground (
  arith,
  before 0 (omega arith),
  find-set_hit prefix xs i y (omega arith) h (λ j l. before (suc j) (omega arith)),
)

-- A write of an entry that does not match over one that does not either.
pub find-set_miss :
    (prefix : List ℕ) (xs : List DiscoveredParticipant) (i : ℕ) (y : DiscoveredParticipant)
    → holds prefix y ≡ false
    → holds prefix (get_or xs i no_entry) ≡ false
    → find prefix (set xs i y) ≡ find prefix xs
find-set_miss prefix [] i y h k = refl
find-set_miss prefix (x ∷ xs) zero y h k = ground (arith, h, k)
find-set_miss prefix (x ∷ xs) (suc i) y h k = elim (Bool-cases (holds prefix x)) [
  | inl q ↦ rw q refl
  | inr q ↦ rw q (find-set_miss prefix xs i y h k)
]

pub bytes_eq_refl : (a : List ℕ) → bytes_eq a a ≡ true
bytes_eq_refl [] = refl
bytes_eq_refl (x ∷ a) = ground (arith, bytes_eq_refl a)

pub bytes_eq_sound : (a b : List ℕ) → bytes_eq a b ≡ true → a ≡ b
bytes_eq_sound [] [] e = refl
bytes_eq_sound [] (y ∷ b) e = cc
bytes_eq_sound (x ∷ a) [] e = cc
bytes_eq_sound (x ∷ a) (y ∷ b) e =
    let head : x ≡ y = ground (arith, e) in
    let tail : a ≡ b = bytes_eq_sound a b (ground (arith, e)) in cc (head, tail)
