-- ===== src/Rtps/Writer/Pointers.antt =====
-- The payload pointers of the retransmissions, across the compaction of the history.
use open_rtdds.Prelude.{
  ℕ, suc, ◌<◌, ◌≡◌, ◌⊎◌, ap, List, [], ◌∷◌, ◌++◌, Option, arith, length, get_or, All,
  get_or-append_middle, append_assoc, length-append, inl, inr,
}
use open_rtdds.Rtps.Actions
use open_rtdds.Rtps.Actions.{ReliabilityAction, ReliabilityActionKind, ActionBuffer, listed}
use open_rtdds.Rtps.Messages.{AckNack}
use open_rtdds.Rtps.Sent.{
  SentRecord, sequence_of, blank, Decision, keep, deliver, repair, fail_window, fail_attempts,
  repaired,
}
use open_rtdds.Rtps.Writer.{ReliableWriter, on_acknack}
use open_rtdds.Rtps.Writer.Compact.{retain, emit}
use open_rtdds.Rtps.Writer.Invariant.{live, IsValid}
use open_rtdds.Rtps.Writer.Acknack.{Rejected, on_acknack_lem}

-- The pointer of an action, if it has one, points into a record in use, which holds the sample that
-- the action names.
abbrev pub Backed : List SentRecord → ReliabilityAction → Type 0
Backed rs a = elim a.payload [
  | Option.none ↦ Unit {0}
  | Option.some slot ↦
      (slot < length rs)
      × (sequence_of (get_or rs slot blank) ≡ a.sequence_number)
      × ((get_or rs slot blank).sample.size ≡ a.data_size)
]

-- The rest of the loop after one more record is retained.
next :
    (front : List SentRecord) (r : SentRecord) (ds : List Decision) (rs : List SentRecord)
    → All (Backed ((front ++ r ∷ []) ++ retain ds rs)) (emit (length (front ++ r ∷ [])) ds rs)
    → All (Backed (front ++ r ∷ retain ds rs)) (emit (suc (length front)) ds rs)
next front r ds rs all =
    let len : length (front ++ r ∷ []) ≡ suc (length front) =
      omega (arith, length-append front (r ∷ [])) in
    rw (append_assoc front (r ∷ []) (retain ds rs), len) at all

-- The records in front are those that the loop has retained already.
pub emit-Backed :
    (front : List SentRecord) (ds : List Decision) (rs : List SentRecord)
    → All (Backed (front ++ retain ds rs)) (emit (length front) ds rs)
emit-Backed front [] rs = tt
emit-Backed front (keep ∷ ds) [] = tt
emit-Backed front (repair ∷ ds) [] = tt
emit-Backed front (deliver ∷ ds) [] = tt
emit-Backed front (fail_window ∷ ds) [] = tt
emit-Backed front (fail_attempts ∷ ds) [] = tt
emit-Backed front (keep ∷ ds) (r ∷ rs) = next front r ds rs (emit-Backed (front ++ r ∷ []) ds rs)
emit-Backed front (repair ∷ ds) (r ∷ rs) =
    let here : get_or (front ++ repaired r ∷ retain ds rs) (length front) blank ≡ repaired r =
      get_or-append_middle front (repaired r) (retain ds rs) blank in
    (
      (
        omega (arith, length-append front (repaired r ∷ retain ds rs)),
        ap sequence_of here,
        ap (λ x. x.sample.size) here,
      ),
      next front (repaired r) ds rs (emit-Backed (front ++ repaired r ∷ []) ds rs),
    )
emit-Backed front (deliver ∷ ds) (r ∷ rs) = (tt, emit-Backed front ds rs)
emit-Backed front (fail_window ∷ ds) (r ∷ rs) = (tt, emit-Backed front ds rs)
emit-Backed front (fail_attempts ∷ ds) (r ∷ rs) = (tt, emit-Backed front ds rs)

-- After an accepted ACKNACK the pointer of each new action leads to the record that now holds the
-- action's sample, although the records have moved.
pub on_acknack-Backed :
    {depth capacity : ℕ} (now : ℕ) {w : ReliableWriter} (a : AckNack) {b : ActionBuffer}
    → IsValid depth w
    → Actions.IsValid capacity b
    → Rejected w b (on_acknack capacity w a now b)
      ⊎ ((made : List ReliabilityAction) × (listed (on_acknack capacity w a now b).2
            ≡ listed b ++ made)
          × All (Backed (live (on_acknack capacity w a now b).1)) made)
on_acknack-Backed now {w} a {b} v vb = elim (on_acknack_lem now a v vb) [
  | inl r ↦ inl r
  | inr (ds, h) ↦ inr (emit 0 ds (live w), h.actions, rw h.history (emit-Backed [] ds (live w)))
]
