-- ===== src/Core/History/Ends.antt =====
-- `oldest` and `newest` of the KEEP_LAST history.
use open_rtdds.Prelude.{
  ℕ, zero, suc, ◌+◌, ◌-◌, ◌%◌, ◌≤◌, ◌<◌, ◌≡◌, refl, sym, ap, ◌∙◌, ◌≢◌, arith, ◌==◌, if◌then◌else◌,
  get_or, List, [], ◌∷◌, ◌++◌, Option, dec_lt,
}
use mathlib.Core.Option
use native.Mathlib.Nat.{mod-eq_of_lt, mod-eq-sub-mod}
use open_rtdds.Core.History.{BoundedSample, KeepLastHistory, empty_sample, oldest, newest}
use open_rtdds.Core.History.Invariant.{IsValid}
use open_rtdds.Core.History.Window.{
  Entry, view, first, last, window, contents, window-snoc, window_of_pos,
}

last-snoc : (es : List Entry) (e : Entry) → last (es ++ e ∷ []) ≡ Option.some e
last-snoc [] e = refl
last-snoc (d ∷ []) e = refl
last-snoc (d ∷ f ∷ es) e = last-snoc (f ∷ es) e

-- The place before the write index holds the newest sample.
newest_index :
    (depth o n w : ℕ)
    → o < depth
    → n < depth
    → w ≡ (o + suc n) % depth
    → (if w == 0 then depth - 1 else w - 1) ≡ (o + n) % depth
newest_index depth o n w ho hn e = elim (dec_lt (o + suc n) depth) [
  | yes p ↦
      ground
        (arith, mod-eq_of_lt {n = o + suc n} p, mod-eq_of_lt {n = o + n} {m = depth} (omega arith))
  | no p ↦ elim (dec_lt (o + n) depth) [
    | yes q ↦ ground (
      arith,
      mod-eq_of_lt {n = o + n} q,
      mod-eq-sub-mod {n = o + suc n} {m = depth} (omega arith),
      mod-eq_of_lt {n = o + suc n - depth} {m = depth} (omega arith),
    )
    | no q ↦ ground (
      arith,
      mod-eq-sub-mod {n = o + n} {m = depth} (omega arith),
      mod-eq_of_lt {n = o + n - depth} {m = depth} (omega arith),
      mod-eq-sub-mod {n = o + suc n} {m = depth} (omega arith),
      mod-eq_of_lt {n = o + suc n - depth} {m = depth} (omega arith),
    )
  ]
]

newest-view :
    (depth max : ℕ) (xs : List BoundedSample) (o n w : ℕ)
    → o < depth
    → n ≤ depth
    → n ≢ 0
    → w ≡ (o + n) % depth
    → last (window depth max xs o n)
      ≡ Option.some (view (get_or xs (if w == 0 then depth - 1 else w - 1) (empty_sample max)))
newest-view depth max xs o zero w ho hn ne e = absurd (ne refl)
newest-view depth max xs o (suc n) w ho hn ne e =
    ap last (window-snoc depth max xs o n)
    ∙ last-snoc (window depth max xs o n) _
    ∙ ap (λ i. Option.some (view (get_or xs i (empty_sample max))))
        (sym (newest_index depth o n w ho (omega arith) e))

-- `oldest` is the first entry and `newest` the last, and both are null exactly when the history is empty.
pub ends_refine :
    {depth max : ℕ} {h : KeepLastHistory}
    → IsValid depth max h
    → (Option.map view (oldest max h) ≡ first (contents depth max h))
      × (Option.map view (newest depth max h) ≡ last (contents depth max h))
unfolding oldest newest
ends_refine {depth} {max} {h} v = (
  ground (
    arith,
    window_of_pos depth max h.samples h.oldest_index h.size,
    mod-eq_of_lt {n = h.oldest_index} v.oldest_lt,
  ),
  ground (
    arith,
    newest-view depth max h.samples h.oldest_index h.size h.write_index v.oldest_lt v.size_le,
  ),
)
