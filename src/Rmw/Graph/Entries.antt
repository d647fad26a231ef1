-- ===== src/Rmw/Graph/Entries.antt =====
-- The entries of the last generations: the search of src/rmw/graph_cache.cpp's apply_remote for one.
use open_rtdds.Prelude.{
  ℕ, suc, ◌+◌, ◌<◌, ◌≡◌, refl, sym, ap, ◌∙◌, Bool, true, ◌&&◌, not, List, [], ◌∷◌, Option, arith,
  Bool-cases, inl, inr, length, set, if◌then◌else◌,
}
use mathlib.Core.Option.{some-injective}
use open_rtdds.Rtps.Types.{GuidPrefix}
use open_rtdds.Rmw.Graph.Records.{RemoteGeneration}
use open_rtdds.Rmw.Graph.Cache.{generation_of}
use open_rtdds.Rmw.Graph.Remote.{is_none, find_generation}

-- The entry that is written is the one that the next search finds.
module _ (prefix : GuidPrefix) (entry : RemoteGeneration)
    (mine : generation_of prefix entry ≡ true) where
  abbrev pub Finds : ℕ → ℕ → List RemoteGeneration → Type 0
  Finds index m entries =
      (m < length entries)
      × ((available : Option ℕ)
          → (find_generation prefix index available (set entries m entry)).0
            ≡ Option.some (index + m))

  pub found_again :
      (index : ℕ) (available : Option ℕ) (entries : List RemoteGeneration) (k : ℕ)
      → (find_generation prefix index available entries).0 ≡ Option.some k
      → (m : ℕ) × (k ≡ index + m) × Finds index m entries
  found_again index available [] k h = cc
  found_again index available (e ∷ es) k h =
      let next = if not e.occupied && is_none available then Option.some index else available in
      let rest = find_generation prefix (suc index) next es in
      let pick : Bool → Option ℕ = λ b. (if b then (Option.some index, available) else rest).0 in
      elim (Bool-cases (generation_of prefix e)) [
        | inl t ↦ (
          0,
          let q : Option.some index ≡ Option.some k = ap pick (sym t) ∙ h in
              omega (arith, some-injective index k q),
          (omega arith, λ a. rw mine (ap Option.some (omega arith))),
        )
        | inr f ↦
            let (m, eq, (lt, finds)) = found_again (suc index) next es k (ap pick (sym f) ∙ h) in
            (
              suc m,
              omega (arith, eq),
              (
                omega (arith, lt),
                λ a. rw f (
                    finds (if not e.occupied && is_none a then Option.some index else a)
                    ∙ ap Option.some (omega arith)),
              ),
            )
      ]

  kept_available :
      (index j : ℕ) (entries : List RemoteGeneration)
      → (find_generation prefix index (Option.some j) entries).1 ≡ Option.some j
  kept_available index j [] = refl
  kept_available index j (e ∷ es) = elim (Bool-cases (generation_of prefix e)) [
    | inl t ↦ rw t refl
    | inr f ↦ elim (Bool-cases e.occupied) [
      | inl o ↦ rw (f, o) (kept_available (suc index) j es)
      | inr o ↦ rw (f, o) (kept_available (suc index) j es)
    ]
  ]

  pub free_again :
      (index : ℕ) (entries : List RemoteGeneration) (k : ℕ)
      → (find_generation prefix index Option.none entries).0 ≡ Option.none
      → (find_generation prefix index Option.none entries).1 ≡ Option.some k
      → (m : ℕ) × (k ≡ index + m) × Finds index m entries
  free_again index [] k n h = cc
  free_again index (e ∷ es) k n h =
      let next = if not e.occupied && true then Option.some index else Option.none in
      let rest : Option ℕ → Option ℕ × Option ℕ = λ a. find_generation prefix (suc index) a es in
      let pick : Bool → Option ℕ × Option ℕ =
        λ b. if b then (Option.some index, Option.none) else rest next in
      elim (Bool-cases (generation_of prefix e)) [
        | inl t ↦ let q : Option.some index ≡ Option.none = ap (λ b. (pick b).0) (sym t) ∙ n in cc
        | inr f ↦
            let n' : (rest next).0 ≡ Option.none = ap (λ b. (pick b).0) (sym f) ∙ n in
            let h' : (rest next).1 ≡ Option.some k = ap (λ b. (pick b).1) (sym f) ∙ h in
            let turn : Bool → Option ℕ =
              λ b. if not b && true then Option.some index else Option.none in
            elim (Bool-cases e.occupied) [
              | inl o ↦
                  let (m, eq, (lt, finds)) =
                    free_again (suc index) es k (ap (λ b. (rest (turn b)).0) (sym o) ∙ n')
                      (ap (λ b. (rest (turn b)).1) (sym o) ∙ h') in
                  (
                    suc m,
                    omega (arith, eq),
                    (
                      omega (arith, lt),
                      λ a. rw f (
                          finds (if not e.occupied && is_none a then Option.some index else a)
                          ∙ ap Option.some (omega arith)),
                    ),
                  )
              | inr o ↦
                  let q : Option.some index ≡ Option.some k =
                    sym (kept_available (suc index) index es)
                    ∙ (ap (λ b. (rest (turn b)).1) (sym o) ∙ h') in
                  (
                    0,
                    omega (arith, some-injective index k q),
                    (omega arith, λ a. rw mine (ap Option.some (omega arith))),
                  )
            ]
      ]
