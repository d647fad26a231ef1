-- ===== src/Core/History/Window.antt =====
-- What the array of a KEEP_LAST history holds: the entries from an index on, round the ring.
use open_rtdds.Prelude.{
  ℕ, zero, suc, ◌+◌, ◌-◌, ◌%◌, ◌≤◌, ◌<◌, ◌≡◌, refl, sym, ap, ap₂, ◌≢◌, arith, ◌==◌, if◌then◌else◌,
  length, get_or, set, take, List, [], ◌∷◌, ◌++◌, get_or-set_self, get_or-set_ne, Option,
}
use open_rtdds.Prelude.Modular.{mod-add_left, mod-ne}
use open_rtdds.Core.History.{SampleMetadata, BoundedSample, KeepLastHistory, empty_sample}

-- What a user sees of a sample: the bytes in use and the metadata.
abbrev pub Entry : Type 0
Entry = List ℕ × SampleMetadata

abbrev pub view : BoundedSample → Entry
view s = (take s.size s.payload, s.metadata)

-- The abstract history: a list of entries, oldest first.
abbrev pub drop_first : List Entry → List Entry
drop_first [] = []
drop_first (e ∷ es) = es

abbrev pub keep_last : ℕ → List Entry → Entry → List Entry
keep_last depth q e = if length q == depth then drop_first q ++ e ∷ [] else q ++ e ∷ []

abbrev pub first : List Entry → Option Entry
first [] = Option.none
first (e ∷ es) = Option.some e

abbrev pub last : List Entry → Option Entry
last [] = Option.none
last (e ∷ []) = Option.some e
last (e ∷ f ∷ es) = last (f ∷ es)

module _ (depth max : ℕ) (xs : List BoundedSample) where
  -- The `n` entries from place `k` on, counted round the ring.
  abbrev pub window : ℕ → ℕ → List Entry
  window k zero = []
  window k (suc n) = view (get_or xs (k % depth) (empty_sample max)) ∷ window (k + 1) n

  pub length-window : (k n : ℕ) → length (window k n) ≡ n
  length-window k zero = refl
  length-window k (suc n) = ap suc (length-window (k + 1) n)

  pub window-turn : (j k n : ℕ) → j % depth ≡ k % depth → window j n ≡ window k n
  window-turn j k zero e = refl
  window-turn j k (suc n) e = ap₂ ◌∷◌ (ap (λ i. view (get_or xs i (empty_sample max))) e) (
      window-turn (j + 1) (k + 1) n
        (ground (arith, mod-add_left j 1 depth, mod-add_left k 1 depth)))

  pub window-snoc :
      (k n : ℕ)
      → window k (suc n) ≡ window k n ++ view (get_or xs ((k + n) % depth) (empty_sample max)) ∷ []
  window-snoc k zero = ground arith
  window-snoc k (suc n) = ground (arith, window-snoc (k + 1) n)

-- A write outside of the window leaves it alone.
window-set :
    (depth max : ℕ) (xs : List BoundedSample) (s : BoundedSample) (e k n : ℕ)
    → k + n ≤ e
    → e < k + depth
    → window depth max (set xs (e % depth) s) k n ≡ window depth max xs k n
window-set depth max xs s e k zero p q = refl
window-set depth max xs s e k (suc n) p q =
    ap₂ ◌∷◌
      (ap view (
        get_or-set_ne xs (e % depth) (k % depth) s (empty_sample max)
          (λ eq. mod-ne k e depth (omega arith) q (sym eq))))
      (window-set depth max xs s e (k + 1) n (omega arith) (omega arith))

pub window_of_pos :
    (depth max : ℕ) (xs : List BoundedSample) (k n : ℕ)
    → n ≢ 0
    → window depth max xs k n
      ≡ view (get_or xs (k % depth) (empty_sample max)) ∷ window depth max xs (k + 1) (n - 1)
window_of_pos depth max xs k zero h = absurd (h refl)
window_of_pos depth max xs k (suc n) h = ap (λ m. window depth max xs k (suc m)) (omega arith)

abbrev pub contents : ℕ → ℕ → KeepLastHistory → List Entry
contents depth max h = window depth max h.samples h.oldest_index h.size

-- A write just past a window extends it.
pub window-set_end :
    (depth max : ℕ) (xs : List BoundedSample) (s : BoundedSample) (k n : ℕ)
    → n < depth
    → length xs ≡ depth
    → window depth max (set xs ((k + n) % depth) s) k (suc n)
      ≡ window depth max xs k n ++ view s ∷ []
window-set_end depth max xs s k n lt len = rw (
  window-snoc depth max (set xs ((k + n) % depth) s) k n,
  window-set depth max xs s (k + n) k n (omega arith) (omega arith),
  get_or-set_self xs ((k + n) % depth) s (empty_sample max) (omega arith),
)
