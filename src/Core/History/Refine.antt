-- ===== src/Core/History/Refine.antt =====
-- The KEEP_LAST history behaves as the list of its samples, oldest first.
use open_rtdds.Prelude.{
  ℕ, zero, suc, ◌+◌, ◌-◌, ◌%◌, ◌≡◌, refl, ap, arith, ltb, ◌==◌, ◌!=◌, ◌&&◌, not, All, Bool, false,
  if◌then◌else◌, length, get_or, set, BytePointer, List, [], ◌∷◌, Option, take-blit-take,
  ℕ_discrete,
}
use open_rtdds.Prelude.Modular.{mod-add_left}
use open_rtdds.Core.History.{
  is_empty, HistoryError, SampleMetadata, BoundedSample, KeepLastHistory, empty_sample, assign,
  pointed, is_null, push, pop_oldest, clear, advance,
}
use open_rtdds.Core.History.Invariant.{
  IsReadable, IsValid, increment_eq, push-IsValid, pop_oldest-IsValid, clear-IsValid,
}
use open_rtdds.Core.History.Window.{
  Entry, view, drop_first, keep_last, contents, length-window, window-turn, window_of_pos,
  window-set_end,
}

-- What the user of `push` sees: bad input changes nothing, and a good sample goes to the end, at
-- the cost of the oldest when the history is full.
abbrev pub push_entry :
    ℕ → ℕ → List Entry → BytePointer → ℕ → SampleMetadata → HistoryError × List Entry
push_entry depth max q p n m =
    if is_null p && n != 0
    then (HistoryError.invalid_argument, q)
    else if ltb max n
    then (HistoryError.payload_too_large, q)
    else (HistoryError.none, keep_last depth q (pointed p n, m))

pub view-assign :
    (max : ℕ) (s : BoundedSample) (p : BytePointer) (n : ℕ) (m : SampleMetadata)
    → length s.payload ≡ max
    → IsReadable p n
    → (is_null p && n != 0) ≡ false
    → ltb max n ≡ false
    → ((assign max s p n m).0 ≡ HistoryError.none)
      × (view (assign max s p n m).1 ≡ (pointed p n, m))
unfolding assign
view-assign max s Option.none zero m h r a b = ground arith
view-assign max s Option.none (suc n) m h r a b = ground arith
view-assign max s (Option.some bytes) zero m h r a b = ground arith
view-assign max s (Option.some bytes) (suc n) m h r a b =
    ground (arith, take-blit-take s.payload bytes (suc n))

module _ {depth max : ℕ} where
  -- Storing an entry at the write index of a valid history.
  contents-advance :
      {h : KeepLastHistory} (s : BoundedSample)
      → IsValid depth max h
      → contents depth max (advance depth h (set h.samples h.write_index s))
        ≡ keep_last depth (contents depth max h) (view s)
  unfolding advance
  contents-advance {h} s v = elim (ℕ_discrete h.size depth) [
    | yes e ↦ ground (
      arith,
      e,
      ap (λ n. (h.oldest_index + n) % depth) e,
      length-window depth max h.samples h.oldest_index h.size,
      increment_eq depth h.oldest_index,
      window-turn depth max (set h.samples h.write_index s) ((h.oldest_index + 1) % depth)
          (h.oldest_index + 1) h.size,
      mod-add_left (h.oldest_index + 1) 0 depth,
      window_of_pos depth max h.samples h.oldest_index h.size,
      window-set_end depth max h.samples s (h.oldest_index + 1) (h.size - 1),
    )
    | no ne ↦ ground (
      arith,
      length-window depth max h.samples h.oldest_index h.size,
      window-set_end depth max h.samples s h.oldest_index h.size,
    )
  ]

  -- `push` of a valid history answers as the abstract history does, and holds its entries after.
  pub push_refines :
      {h : KeepLastHistory} (p : BytePointer) (n : ℕ) (m : SampleMetadata)
      → IsValid depth max h
      → IsReadable p n
      → let (e, h') = push depth max h p n m in
        (e, contents depth max h') ≡ push_entry depth max (contents depth max h) p n m
  unfolding push
  push_refines {h} p n m v r =
      let s : BoundedSample = get_or h.samples h.write_index (empty_sample max) in
      ground (
        arith,
        view-assign max s p n m (v.payloads h.write_index) r,
        contents-advance (assign max s p n m).1 v,
      )

  -- `pop_oldest` reports whether there was an entry, and drops the oldest.
  pub pop_refines :
      {h : KeepLastHistory}
      → IsValid depth max h
      → let (popped, h') = pop_oldest depth h in
        (popped ≡ not (is_empty h)) × (contents depth max h' ≡ drop_first (contents depth max h))
  unfolding pop_oldest
  pop_refines {h} v = ground (
    arith,
    increment_eq depth h.oldest_index,
    window_of_pos depth max h.samples h.oldest_index h.size,
    mod-add_left (h.oldest_index + 1) 0 depth,
    window-turn depth max h.samples ((h.oldest_index + 1) % depth) (h.oldest_index + 1)
        (h.size - 1),
  )

-- A user's calls in order, with what each returns.
pub data Call : Type 0 where
  push_call : BytePointer → ℕ → SampleMetadata → Call
  pop_call clear_call : Call

pub data Reply : Type 0 where
  pushed : HistoryError → Reply
  popped : Bool → Reply
  cleared : Reply

abbrev pub IsReadableCall : Call → Type 0
IsReadableCall (push_call p n m) = IsReadable p n
IsReadableCall pop_call = Unit {0}
IsReadableCall clear_call = Unit {0}

pub run : ℕ → ℕ → KeepLastHistory → List Call → List Reply × List Entry
run depth max h [] = ([], contents depth max h)
run depth max h (push_call p n m ∷ calls) =
    let (e, h') = push depth max h p n m in
    let (rs, q) = run depth max h' calls in (pushed e ∷ rs, q)
run depth max h (pop_call ∷ calls) =
    let (b, h') = pop_oldest depth h in let (rs, q) = run depth max h' calls in (popped b ∷ rs, q)
run depth max h (clear_call ∷ calls) =
    let (rs, q) = run depth max (clear h) calls in (cleared ∷ rs, q)

pub run_entries : ℕ → ℕ → List Entry → List Call → List Reply × List Entry
run_entries depth max q [] = ([], q)
run_entries depth max q (push_call p n m ∷ calls) =
    let (e, q') = push_entry depth max q p n m in
    let (rs, r) = run_entries depth max q' calls in (pushed e ∷ rs, r)
run_entries depth max q (pop_call ∷ calls) =
    let (rs, r) = run_entries depth max (drop_first q) calls in
    (popped (not (length q == 0)) ∷ rs, r)
run_entries depth max q (clear_call ∷ calls) =
    let (rs, r) = run_entries depth max [] calls in (cleared ∷ rs, r)

contents-clear : (depth max : ℕ) (h : KeepLastHistory) → contents depth max (clear h) ≡ []
unfolding clear
contents-clear depth max h = refl

-- No sequence of pushes, pops and clears tells the ring from the list that keeps the last `depth`
-- entries: the replies and the entries that are left agree.
pub run_refines :
    {depth max : ℕ} (calls : List Call) {h : KeepLastHistory}
    → IsValid depth max h
    → All IsReadableCall calls
    → run depth max h calls ≡ run_entries depth max (contents depth max h) calls
unfolding run run_entries
run_refines [] v r = refl
run_refines {depth} {max} (push_call p n m ∷ calls) {h} v r =
    let eq = push_refines p n m v r.0 in
    ground (arith, eq, run_refines calls (push-IsValid p n m v) r.1)
run_refines {depth} {max} (pop_call ∷ calls) {h} v r = ground (
  arith,
  pop_refines v,
  length-window depth max h.samples h.oldest_index h.size,
  run_refines calls (pop_oldest-IsValid v) r.1,
)
run_refines {depth} {max} (clear_call ∷ calls) {h} v r =
    ground (arith, contents-clear depth max h, run_refines calls (clear-IsValid v) r.1)
